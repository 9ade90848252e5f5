-- ===== src/Scheduler/RawMemory.antt =====
-- The bytes that raw pointers reach, for agentos-kernel/src/scheduler/ring3_mt.rs and ring3_preempt.rs. A
-- range of bytes does not wrap around at the end of the address space.
use iaos.Prelude.{
  ℕ, zero, suc, ◌+◌, ◌≤◌, ◌<◌, ◌≡◌, refl, ap, ap₂, ◌∙◌, ◌⊎◌, arith, List, [], ◌∷◌, length, ◌==◌,
  if◌then◌else◌, replicate,
}

abbrev pub Memory : Type 0
Memory = ℕ → ℕ

-- The bytes are stored from an address on.
unfoldable pub write : Memory → ℕ → List ℕ → Memory
write memory at [] a = memory a
write memory at (b ∷ bs) a = let rest = write memory (at + 1) bs a in if a == at then b else rest

-- `n` bytes from an address on.
unfoldable pub read : ℕ → Memory → ℕ → List ℕ
read zero memory at = []
read (suc n) memory at = memory at ∷ read n memory (at + 1)

-- `copy_nonoverlapping(from, to, 160)`
abbrev pub copy : Memory → ℕ → ℕ → Memory
copy memory from to = write memory to (read 160 memory from)

-- 160 bytes of 0xAA.
abbrev pub poison : List ℕ
poison = replicate 160 170

-- Two contexts of 160 bytes that do not overlap.
abbrev pub AreApart : ℕ → ℕ → Type 0
AreApart a b = (a + 160 ≤ b) ⊎ (b + 160 ≤ a)

pub length-read : (n : ℕ) (memory : Memory) (at : ℕ) → length (read n memory at) ≡ n
unfolding read
length-read zero memory at = refl
length-read (suc n) memory at = ap suc (length-read n memory (at + 1))

write-outside :
    (memory : Memory) (at : ℕ) (bs : List ℕ) (a : ℕ)
    → (a < at) ⊎ (at + length bs ≤ a)
    → write memory at bs a ≡ memory a
unfolding write
write-outside memory at [] a h = refl
write-outside memory at (b ∷ bs) a h =
    let rest = write-outside memory (at + 1) bs a (ground arith) in ground arith

read-ext :
    (n : ℕ) (memory memory' : Memory) (at : ℕ)
    → ((a : ℕ) → at ≤ a → a < at + n → memory a ≡ memory' a)
    → read n memory at ≡ read n memory' at
unfolding read
read-ext zero memory memory' at f = refl
read-ext (suc n) memory memory' at f =
    ap₂ (λ b bs. b ∷ bs) (f at (omega arith) (omega arith))
      (read-ext n memory memory' (at + 1) (λ a low high. f a (omega arith) (omega arith)))

-- What lies outside the bytes written is as before.
pub read-write_apart :
    (n : ℕ) (memory : Memory) (at : ℕ) (bs : List ℕ) (from : ℕ)
    → (from + n ≤ at) ⊎ (at + length bs ≤ from)
    → read n (write memory at bs) from ≡ read n memory from
read-write_apart n memory at bs from h =
    read-ext n (write memory at bs) memory from
      (λ a low high. write-outside memory at bs a (ground arith))

write-cons :
    (memory : Memory) (at b : ℕ) (bs : List ℕ) (a : ℕ)
    → at < a
    → write memory at (b ∷ bs) a ≡ write memory (at + 1) bs a
unfolding write
write-cons memory at b bs a h = ground arith

write-first : (memory : Memory) (at b : ℕ) (bs : List ℕ) → write memory at (b ∷ bs) at ≡ b
unfolding write
write-first memory at b bs = ground arith

-- The bytes written are read back.
pub read-write_same :
    (n : ℕ) (memory : Memory) (at : ℕ) (bs : List ℕ)
    → length bs ≡ n
    → read n (write memory at bs) at ≡ bs
unfolding read
read-write_same zero memory at [] h = refl
read-write_same zero memory at (b ∷ bs) h = absurd (omega arith)
read-write_same (suc n) memory at [] h = absurd (omega arith)
read-write_same (suc n) memory at (b ∷ bs) h =
    ap₂ (λ c cs. c ∷ cs) (write-first memory at b bs)
      (read-ext n (write memory at (b ∷ bs)) (write memory (at + 1) bs) (at + 1)
          (λ a low high. write-cons memory at b bs a (omega arith))
        ∙ read-write_same n memory (at + 1) bs (omega arith))

-- A context that was parked: copied from `from` to `to`, and poisoned at `from`.
pub read-parked :
    (memory : Memory) (from to : ℕ)
    → AreApart from to
    → read 160 (write (copy memory from to) from poison) to ≡ read 160 memory from
read-parked memory from to h =
    read-write_apart 160 (copy memory from to) from poison to (ground arith)
    ∙ read-write_same 160 memory to (read 160 memory from) (length-read 160 memory from)

-- A buffer that is apart from both ends of a parking is as before.
pub read-parked_apart :
    (memory : Memory) (from to at : ℕ)
    → AreApart from at
    → AreApart to at
    → read 160 (write (copy memory from to) from poison) at ≡ read 160 memory at
read-parked_apart memory from to at h k =
    read-write_apart 160 (copy memory from to) from poison at (ground arith)
    ∙ read-write_apart 160 memory to (read 160 memory from) at
        (let size = length-read 160 memory from in ground arith)
