-- ===== src/Gate/Json.antt =====
-- A writer and a reader of the records of scripts/check-release.py, which give back what was written.
use mathlib.Core.List.{append_assoc, append-nil}
use linux_build.Base.{
  ℕ, zero, suc, Bool, true, false, [], ◌∷◌, ◌++◌, Option, some, ◌==◌, length, take, drop,
  take-append_length, drop-append_length, Text, Result, ok, err, bad_value, ◌≡◌, refl, sym,
}
use linux_build.Base.Dict.{Dict}
use linux_build.Gate.Records.{Candidate}

-- A text as its length and its members, and what is written by that.
unfoldable pub put_text : Text → Text
put_text s = length s ∷ s

unfoldable pub get_text : Text → Text × Text
get_text [] = ([], [])
get_text (n ∷ s) = (take n s, drop n s)

get_text-put_text : (s rest : Text) → get_text (put_text s ++ rest) ≡ (s, rest)
unfolding get_text put_text
get_text-put_text s rest = rw (take-append_length s rest, drop-append_length s rest) refl

unfoldable pub put_items : Dict Text → Text
put_items [] = []
put_items ((k, v) ∷ d) = put_text k ++ (put_text v ++ put_items d)

unfoldable pub put_dict : Dict Text → Text
put_dict d = length d ∷ put_items d

-- The items, from the number of those to come.
unfoldable pub get_value : Text → Text × Text → (Text → Dict Text × Text) → Dict Text × Text
get_value k (v, rest) next = let (d, rest') = next rest in ((k, v) ∷ d, rest')

unfoldable pub get_key : Text × Text → (Text → Dict Text × Text) → Dict Text × Text
get_key (k, rest) next = get_value k (get_text rest) next

unfoldable pub get_items : ℕ → Text → Dict Text × Text
get_items zero s = ([], s)
get_items (suc n) s = get_key (get_text s) (get_items n)

unfoldable pub get_dict : Text → Dict Text × Text
get_dict [] = ([], [])
get_dict (n ∷ s) = get_items n s

get_items-put_items :
    (d : Dict Text) (rest : Text) → get_items (length d) (put_items d ++ rest) ≡ (d, rest)
unfolding get_items put_items get_key get_value
get_items-put_items [] rest = refl
get_items-put_items ((k, v) ∷ d) rest =
    rw
      (
        append_assoc (put_text k) (put_text v ++ put_items d) rest,
        append_assoc (put_text v) (put_items d) rest,
        get_text-put_text k (put_text v ++ (put_items d ++ rest)),
        get_text-put_text v (put_items d ++ rest),
        get_items-put_items d rest,
      )
      refl

unfoldable pub bit : Bool → ℕ
bit false = 0
bit true = 1

bit-== : (b : Bool) → (bit b == 1) ≡ b
unfolding bit
bit-== true = refl
bit-== false = refl

unfoldable pub dumps : Candidate → Text → Text
dumps c h =
    c.schema
    ∷ bit c.ready
    ∷ c.package_count
    ∷ c.boot_paths
    ∷ bit c.board_tested
    ∷ bit c.published
    ∷ (put_text c.test_results_sha256
        ++ (put_dict c.archives ++ (put_dict c.source_files ++ put_text h)))

-- The numbers and flags that come first.
pub record Head : Type 0 where
  pub schema : ℕ
  pub ready : Bool
  pub package_count : ℕ
  pub boot_paths : ℕ
  pub board_tested : Bool
  pub published : Bool

unfoldable pub finish : Head → Text → Dict Text → Dict Text → Text → Candidate × Option Text
finish f tests archives sources h = (
  record {
    schema = f.schema;
    ready = f.ready;
    package_count = f.package_count;
    boot_paths = f.boot_paths;
    board_tested = f.board_tested;
    published = f.published;
    archives = archives;
    test_results_sha256 = tests;
    source_files = sources;
  },
  some h,
)

unfoldable pub with_hash :
    Head → Text → Dict Text → Dict Text → Text × Text → Candidate × Option Text
with_hash f tests archives sources (h, rest) = finish f tests archives sources h

unfoldable pub with_sources : Head → Text → Dict Text → Dict Text × Text → Candidate × Option Text
with_sources f tests archives (sources, rest) = with_hash f tests archives sources (get_text rest)

unfoldable pub with_archives : Head → Text → Dict Text × Text → Candidate × Option Text
with_archives f tests (archives, rest) = with_sources f tests archives (get_dict rest)

unfoldable pub with_tests : Head → Text × Text → Candidate × Option Text
with_tests f (tests, rest) = with_archives f tests (get_dict rest)

unfoldable pub loads : Text → Result (Candidate × Option Text)
loads (schema ∷ ready ∷ packages ∷ boots ∷ board ∷ published ∷ s) =
    let head : Head = record {
      schema = schema;
      ready = ready == 1;
      package_count = packages;
      boot_paths = boots;
      board_tested = board == 1;
      published = published == 1;
    } in
    ok (with_tests head (get_text s))
loads _ = err bad_value

pub get_dict-put_dict : (d : Dict Text) (rest : Text) → get_dict (put_dict d ++ rest) ≡ (d, rest)
unfolding get_dict put_dict
get_dict-put_dict d rest = get_items-put_items d rest

get_text-put_all : (s : Text) → get_text (put_text s) ≡ (s, [])
get_text-put_all s = rw (sym (append-nil (put_text s))) (get_text-put_text s [])

pub loads-dumps : (c : Candidate) (h : Text) → loads (dumps c h) ≡ ok (c, some h)
unfolding loads dumps with_tests with_archives with_sources with_hash finish
loads-dumps c h =
    rw
      (
        get_text-put_text c.test_results_sha256
            (put_dict c.archives ++ (put_dict c.source_files ++ put_text h)),
        get_dict-put_dict c.archives (put_dict c.source_files ++ put_text h),
        get_dict-put_dict c.source_files (put_text h),
        get_text-put_all h,
        bit-== c.ready,
        bit-== c.board_tested,
        bit-== c.published,
      )
      refl
