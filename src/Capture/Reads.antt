-- ===== src/Capture/Reads.antt =====
-- The control flow of `dissect` in src/capture.cpp: each step goes on with a value, or returns the
-- packet as it stands, or reads outside the captured bytes.
use wirelab_experiments.Common.{
  ℕ, ◌+◌, ◌-◌, ◌*◌, ◌%◌, ◌^◌, ◌≤◌, ◌<◌, bit_or, ◌≡◌, Bool, true, false, ◌&&◌, List, none, some,
  length, get_elem?, take, drop, leb, if◌then◌else◌, arith, get_elem?_in_range,
}
use wirelab_experiments.Packet.{PacketMetadata}

pub data Parse {ℓ} (A : Type ℓ) : Type ℓ where
  fault : Parse A
  finish : PacketMetadata → Parse A
  continue : A → Parse A

infixl 5 ◌>>=◌ ◌>>◌
abbrev pub ◌>>=◌ {ℓ κ} : {A : Type ℓ} {B : Type κ} → Parse A → (A → Parse B) → Parse B
fault >>= f = fault
finish p >>= f = finish p
continue a >>= f = f a

abbrev pub ◌>>◌ {κ} : {B : Type κ} → Parse (Unit {0}) → Parse B → Parse B
m >> k = m >>= λ _. k

-- `if (test) return p;`
abbrev pub return_if : Bool → PacketMetadata → Parse (Unit {0})
return_if true p = finish p
return_if false p = continue tt

-- `b[i]`
unfoldable pub byte : List ℕ → ℕ → Parse ℕ
byte b i = elim (get_elem? b i) [ none ↦ fault | some x ↦ continue x ]

-- `static_cast<std::uint16_t>((b[i] << 8) | b[i + 1])`
unfoldable pub u16 : List ℕ → ℕ → Parse ℕ
u16 b i = do high ← byte b i; low ← byte b (i + 1); continue (bit_or (high * 2 ^ 8) low % 2 ^ 16)

-- The bytes of `b` from `first` up to `last`, as a callee reads them.
unfoldable pub slice : List ℕ → ℕ → ℕ → Parse (List ℕ)
slice b first last =
    if leb first last && leb last (length b)
    then continue (take (last - first) (drop first b))
    else fault

pub byte_in_range : (b : List ℕ) (i : ℕ) → i < length b → (x : ℕ) × (byte b i ≡ continue x)
unfolding byte
byte_in_range b i h = let (x, e) = get_elem?_in_range b i h in (x, rw (e, byte))

pub u16_in_range :
    (b : List ℕ) (i : ℕ) → i + 1 < length b → (x : ℕ) × (u16 b i ≡ continue x) × (x < 2 ^ 16)
unfolding u16
u16_in_range b i h =
    let (x, e) = byte_in_range b i (omega arith) in
    let (y, k) = byte_in_range b (i + 1) h in
    (bit_or (x * 2 ^ 8) y % 2 ^ 16, rw (e, k), omega arith)

pub slice_in_range :
    (b : List ℕ) (first last : ℕ)
    → first ≤ last
    → last ≤ length b
    → slice b first last ≡ continue (take (last - first) (drop first b))
unfolding slice
slice_in_range b first last h k = ground arith
