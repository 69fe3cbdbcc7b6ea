-- ===== src/Base/Image.antt =====
-- The parts of a RISC-V kernel Image that the scripts read, and its place in a firmware.
use Prim.Native.Nat.{ℕ, suc, ◌+◌, max}
use mathlib.Core.Bool.{Bool, false}
use mathlib.Core.List.{[], ◌∷◌}
use mathlib.Core.Option.{Option, none, some}
use linux_build.Base.Lists.{length}
use linux_build.Base.Results.{Result, ok, ◌>>=◌}
use linux_build.Base.Texts.{starts_with}
use linux_build.Base.Tests.{if◌then◌else◌, ◌==◌}
use linux_build.Base.Bytes.{Bytes, unpack}

pub record Layout : Type 0 where
  pub text_offset : ℕ
  pub memory_size : ℕ

-- `struct.unpack_from('<QQ', image, 8)`
unfoldable pub layout_of : Bytes → Result Layout
layout_of image = do
  text_offset ← unpack 8 image 8
  memory_size ← unpack 8 image 16
  ok (record { text_offset = text_offset; memory_size = memory_size })

-- `text_offset + max(memory_size, len(image))`
abbrev pub kernel_end : Layout → Bytes → ℕ
kernel_end layout image = layout.text_offset + max layout.memory_size (length image)

next : Option ℕ → Option ℕ
next none = none
next (some n) = some (suc n)

-- `data.find(part)`; `none` is -1.
unfoldable pub find : Bytes → Bytes → Option ℕ
unfolding next
find part [] = if starts_with [] part then some 0 else none
find part (x ∷ data') = if starts_with (x ∷ data') part then some 0 else next (find part data')

-- `data.find(part) == n`, for its result.
unfoldable pub is_at : ℕ → Option ℕ → Bool
is_at n none = false
is_at n (some m) = m == n
