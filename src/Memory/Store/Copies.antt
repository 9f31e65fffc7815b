-- ===== src/Memory/Store/Copies.antt =====
-- What `copy` changes, and what a read sees of it.
use industrial_memory_protoc.Prelude.{
  ℕ, zero, suc, ◌+◌, ◌≤◌, ◌<◌, ◌≡◌, refl, sym, ap, ◌∙◌, ◌⊎◌, List, [], ◌∷◌, arith, length, take,
  drop, set, get_or, All, length-set, length-take, length-drop, get_or-drop, get_or-take,
  get_or-set_self, get_or-set_ne, get_or_ext, All-set,
}
use industrial_memory_protoc.Prelude.Bits.{IsByte}
use industrial_memory_protoc.Memory.{copy}

pub length-copy :
    (bs : List ℕ) (start : ℕ) (cells : List ℕ) → length (copy bs start cells) ≡ length cells
unfolding copy
length-copy [] start cells = refl
length-copy (b ∷ bs) start cells =
    length-copy bs (start + 1) (set cells start b) ∙ length-set cells start b

pub All-copy :
    (bs : List ℕ) (start : ℕ) (cells : List ℕ)
    → All IsByte bs
    → All IsByte cells
    → All IsByte (copy bs start cells)
unfolding copy
All-copy [] start cells hb hc = hc
All-copy (b ∷ bs) start cells hb hc =
    All-copy bs (start + 1) (set cells start b) hb.1 (All-set IsByte cells start b hc hb.0)

-- A cell in front of the copied range, or behind it, keeps its value.
pub get_or-copy_outside :
    (bs : List ℕ) (start : ℕ) (cells : List ℕ) (i : ℕ)
    → (i < start) ⊎ (start + length bs ≤ i)
    → get_or (copy bs start cells) i 0 ≡ get_or cells i 0
unfolding copy
get_or-copy_outside [] start cells i h = refl
get_or-copy_outside (b ∷ bs) start cells i h =
    get_or-copy_outside bs (start + 1) (set cells start b) i (omega arith)
    ∙ get_or-set_ne cells start i b 0 (omega arith)

-- A cell of the range has the byte that was copied there.
pub get_or-copy_inside :
    (bs : List ℕ) (start : ℕ) (cells : List ℕ) (i : ℕ)
    → start + length bs ≤ length cells
    → i < length bs
    → get_or (copy bs start cells) (start + i) 0 ≡ get_or bs i 0
unfolding copy
get_or-copy_inside [] start cells i fits h = absurd (omega arith)
get_or-copy_inside (b ∷ bs) start cells zero fits h =
    let e : start + 0 ≡ start = omega arith in
    ap (λ (j : ℕ). get_or (copy bs (start + 1) (set cells start b)) j 0) e
    ∙ get_or-copy_outside bs (start + 1) (set cells start b) start (omega arith)
    ∙ get_or-set_self cells start b 0 (omega arith)
get_or-copy_inside (b ∷ bs) start cells (suc i) fits h =
    let e : start + suc i ≡ start + 1 + i = omega arith in
    ap (λ (j : ℕ). get_or (copy bs (start + 1) (set cells start b)) j 0) e
    ∙ get_or-copy_inside bs (start + 1) (set cells start b) i
        (omega (arith, length-set cells start b)) (omega arith)

-- A slice of the array is its cells.
slice_ext :
    (cells other : List ℕ) (address len : ℕ)
    → length cells ≡ length other
    → ((i : ℕ) → i < len → get_or cells (address + i) 0 ≡ get_or other (address + i) 0)
    → take len (drop address cells) ≡ take len (drop address other)
slice_ext cells other address len e h =
    get_or_ext 0 (take len (drop address cells)) (take len (drop address other))
      (omega (
        arith,
        length-take len (drop address cells),
        length-take len (drop address other),
        length-drop address cells,
        length-drop address other,
      ))
      λ i p.
        let below : i < len = omega (arith, length-take len (drop address cells)) in
        get_or-take len i (drop address cells) 0 below
        ∙ get_or-drop address i cells 0
        ∙ h i below
        ∙ sym (get_or-drop address i other 0)
        ∙ sym (get_or-take len i (drop address other) 0 below)

pub slice-copy :
    (bs : List ℕ) (start : ℕ) (cells : List ℕ)
    → start + length bs ≤ length cells
    → take (length bs) (drop start (copy bs start cells)) ≡ bs
slice-copy bs start cells fits =
    get_or_ext 0 (take (length bs) (drop start (copy bs start cells))) bs size λ i p.
      let below : i < length bs = omega (arith, size) in
      get_or-take (length bs) i (drop start (copy bs start cells)) 0 below
      ∙ get_or-drop start i (copy bs start cells) 0
      ∙ get_or-copy_inside bs start cells i fits below
  where
    size : length (take (length bs) (drop start (copy bs start cells))) ≡ length bs
    size = omega (
      arith,
      length-take (length bs) (drop start (copy bs start cells)),
      length-drop start (copy bs start cells),
      length-copy bs start cells,
    )
