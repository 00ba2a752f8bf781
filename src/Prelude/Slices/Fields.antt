-- ===== src/Prelude/Slices/Fields.antt =====
-- A fixed layout: fields of known widths, one behind the other, each cut out at its offset.
use difz.Prelude.{
  ℕ, ◌+◌, ◌≤◌, ◌≡◌, refl, ap, ◌∙◌, List, [], ◌∷◌, ◌++◌, append_assoc, arith, join, length,
  length-append, length-take, length-drop, take, drop, take_past, chop, All, drop-append, All-take,
  All-drop,
}
use difz.Prelude.Bytes.{Bytes, IsByte}

-- The fields of the widths `widths`, from an offset on.
abbrev pub cuts : ℕ → List ℕ → Bytes → List Bytes
cuts offset [] bytes = []
cuts offset (w ∷ widths) bytes = take w (drop offset bytes) ∷ cuts (offset + w) widths bytes

abbrev pub total : List ℕ → ℕ
total [] = 0
total (w ∷ widths) = w + total widths

abbrev pub HaveWidths : List ℕ → List Bytes → Type 0
HaveWidths [] [] = Unit
HaveWidths [] (p ∷ ps) = ⊥
HaveWidths (w ∷ widths) [] = ⊥
HaveWidths (w ∷ widths) (p ∷ ps) = (length p ≡ w) × HaveWidths widths ps

pub length-join :
    (widths : List ℕ) (ps : List Bytes) → HaveWidths widths ps → length (join ps) ≡ total widths
length-join [] [] h = refl
length-join [] (p ∷ ps) h = absurd h
length-join (w ∷ widths) [] h = absurd h
length-join (w ∷ widths) (p ∷ ps) h =
    omega (arith, h.0, length-append p (join ps), length-join widths ps h.1)

-- Fields that were put behind one another are cut out again.
cuts-from :
    (widths : List ℕ) (ps : List Bytes) (front rest : Bytes)
    → HaveWidths widths ps
    → cuts (length front) widths (front ++ (join ps ++ rest)) ≡ ps
cuts-from [] [] front rest h = refl
cuts-from [] (p ∷ ps) front rest h = absurd h
cuts-from (w ∷ widths) [] front rest h = absurd h
cuts-from (w ∷ widths) (p ∷ ps) front rest h =
    let here : take w (drop (length front) (front ++ (p ++ (join ps ++ rest)))) ≡ p =
      ap (take w) (drop-append front (p ++ (join ps ++ rest))) ∙ take_past p _ w h.0 in
    let next : length front + w ≡ length (front ++ p) = omega (arith, h.0, length-append front p) in
    let later = cuts-from widths ps (front ++ p) rest h.1 in
    rw (append_assoc p (join ps) rest, here, next)
      (ap (λ t. p ∷ t) (rw (append_assoc front p (join ps ++ rest)) at later))

pub cuts-join :
    (widths : List ℕ) (ps : List Bytes) (rest : Bytes)
    → HaveWidths widths ps
    → cuts 0 widths (join ps ++ rest) ≡ ps
cuts-join widths ps rest h = cuts-from widths ps [] rest h

-- Conversely the fields of an input, and what is behind them, are the input.
cuts_whole :
    (widths : List ℕ) (offset : ℕ) (bytes : Bytes)
    → drop offset bytes ≡ join (cuts offset widths bytes) ++ drop (offset + total widths) bytes
cuts_whole [] offset bytes = let e : offset + 0 ≡ offset = omega arith in rw e refl
cuts_whole (w ∷ widths) offset bytes =
    let e : offset + (w + total widths) ≡ offset + w + total widths = omega arith in
    rw (append_assoc, e)
      (chop offset w bytes
        ∙ ap (λ t. take w (drop offset bytes) ++ t) (cuts_whole widths (offset + w) bytes))

pub join-cuts :
    (widths : List ℕ) (bytes : Bytes)
    → bytes ≡ join (cuts 0 widths bytes) ++ drop (total widths) bytes
join-cuts widths bytes =
    let e : 0 + total widths ≡ total widths = omega arith in rw e at (cuts_whole widths 0 bytes)

-- A field that lies in the input has its width, and bytes if the input has.
pub field_of :
    (bytes : Bytes) (offset w : ℕ)
    → All IsByte bytes
    → offset + w ≤ length bytes
    → (length (take w (drop offset bytes)) ≡ w) × All IsByte (take w (drop offset bytes))
field_of bytes offset w bs h = (
  omega (arith, length-take w (drop offset bytes), length-drop offset bytes),
  All-take IsByte w (drop offset bytes) (All-drop IsByte offset bytes bs),
)

pub HaveWidths-append :
    (ws vs : List ℕ) (ps qs : List Bytes)
    → HaveWidths ws ps
    → HaveWidths vs qs
    → HaveWidths (ws ++ vs) (ps ++ qs)
HaveWidths-append [] vs [] qs h k = k
HaveWidths-append [] vs (p ∷ ps) qs h k = absurd h
HaveWidths-append (w ∷ ws) vs [] qs h k = absurd h
HaveWidths-append (w ∷ ws) vs (p ∷ ps) qs h k = (h.0, HaveWidths-append ws vs ps qs h.1 k)
