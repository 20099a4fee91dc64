-- ===== src/Router/Pieces.antt =====
-- `split_segments` of src/common/router.c against a splitter with no bound, and on joined paths.
use naitron_c.Prelude.{
  ℕ, ◌+◌, ◌≤◌, ◌<◌, true, false, List, [], ◌∷◌, ◌++◌, Option, none, some, leb, ◌==◌, if◌then◌else◌,
  Bytes, length, ◌≡◌, refl, ap, ◌∙◌, ◌≢◌, inl, inr, arith, Bool-cases, map, All, append-nil,
  append_assoc, length-append,
}
use naitron_c.Router.Segments.{Seg, mk_seg, split_loop, split_segments}

abbrev close : Option Bytes → List Bytes → List Bytes
close none rest = rest
close (some seg) rest = seg ∷ rest

abbrev grow : Option Bytes → ℕ → Bytes
grow none c = c ∷ []
grow (some seg) c = seg ++ c ∷ []

-- The runs of bytes other than '/', from left to right.
unfoldable pub pieces_from : Option Bytes → Bytes → List Bytes
pieces_from st [] = close st []
pieces_from st (c ∷ cs) = elim (c == b'/') [
  | true ↦ close st (pieces_from none cs)
  | false ↦ pieces_from (some (grow st c)) cs
]

abbrev pub pieces : Bytes → List Bytes
pieces = pieces_from none

-- At most `max` pieces, as segments.
abbrev pub within : ℕ → List Bytes → Option (List Seg)
within max ps = if leb (length ps) max then some (map mk_seg ps) else none

abbrev room : ℕ → ℕ → List Bytes → Option (List Seg)
room n max ps = if leb (n + length ps) max then some (map mk_seg ps) else none

-- The bound is met exactly when a further segment is stored beyond it.
split_loop-pieces :
    (s : Bytes) (n max : ℕ)
    → n ≤ max
    → (split_loop s n max none ≡ room n max (pieces_from none s))
      × ((seg : Bytes) → split_loop s n max (some seg) ≡ room n max (pieces_from (some seg) s))
unfolding split_loop pieces_from
split_loop-pieces [] n max h = (ground arith, λ seg. ground arith)
split_loop-pieces (c ∷ cs) n max h = (
  ground (arith, split_loop-pieces cs n max h, (split_loop-pieces cs n max h).1 (c ∷ [])),
  λ seg. ground (
    arith,
    (split_loop-pieces cs n max h).1 (seg ++ c ∷ []),
    λ (free : n + 1 ≤ max). (split_loop-pieces cs (n + 1) max free).0,
  ),
)

-- Splitting gives the pieces of the path as segments when there are at most `max`, and -1 for more.
pub split_segments-pieces : (s : Bytes) (max : ℕ) → split_segments s max ≡ within max (pieces s)
unfolding split_segments
split_segments-pieces s max = (split_loop-pieces s 0 max (omega arith)).0 ∙ ground arith

abbrev pub NoSlash : Bytes → Type 0
NoSlash = All (λ c. c ≢ b'/')

-- A piece of a path.
abbrev pub IsPiece : Bytes → Type 0
IsPiece p = NoSlash p × (0 < length p)

NoSlash-concat : (s : Bytes) (c : ℕ) → NoSlash s → c ≢ b'/' → NoSlash (s ++ c ∷ [])
NoSlash-concat [] c h n = (n, tt)
NoSlash-concat (x ∷ s) c h n = (h.0, NoSlash-concat s c h.1 n)

abbrev IsOpen : Option Bytes → Type 0
IsOpen none = Unit
IsOpen (some seg) = IsPiece seg

pieces_from-IsPiece : (s : Bytes) (st : Option Bytes) → IsOpen st → All IsPiece (pieces_from st s)
unfolding pieces_from
pieces_from-IsPiece [] none h = tt
pieces_from-IsPiece [] (some seg) h = (h, tt)
pieces_from-IsPiece (c ∷ cs) st h = elim (Bool-cases (c == b'/')) [
  | inl e ↦ rw (e, pieces_from) (closed st _ h (pieces_from-IsPiece cs none tt))
  | inr e ↦
      rw (e, pieces_from)
        (pieces_from-IsPiece cs (some (grow st c)) (grown st h (λ p. ground arith)))
]
  where
    closed :
        (o : Option Bytes) (rest : List Bytes)
        → IsOpen o
        → All IsPiece rest
        → All IsPiece (close o rest)
    closed none rest i all = all
    closed (some seg) rest i all = (i, all)

    grown : (o : Option Bytes) → IsOpen o → c ≢ b'/' → IsPiece (grow o c)
    grown none i n = ((n, tt), omega arith)
    grown (some seg) i n = (NoSlash-concat seg c i.0 n, omega (arith, length-append seg (c ∷ [])))

-- A path with one '/' before each piece.
abbrev pub join : List Bytes → Bytes
join [] = []
join (p ∷ ps) = b'/' ∷ (p ++ join ps)

pieces_from_run :
    (p seg rest : Bytes)
    → NoSlash p
    → pieces_from (some seg) (p ++ rest) ≡ pieces_from (some (seg ++ p)) rest
unfolding pieces_from
pieces_from_run [] seg rest h = rw append-nil
pieces_from_run (c ∷ p) seg rest h =
    let other : (c == b'/') ≡ false = ground (arith, h.0) in
    rw (other, pieces_from) (pieces_from_run p (seg ++ c ∷ []) rest h.1 ∙ rw append_assoc)

pieces_from-join :
    (seg : Bytes) (ps : List Bytes)
    → All IsPiece ps
    → (pieces_from none (join ps) ≡ ps) × (pieces_from (some seg) (join ps) ≡ seg ∷ ps)
unfolding pieces_from
pieces_from-join seg [] h = (refl, refl)
pieces_from-join seg ([] ∷ ps) ((h, pos), hs) = absurd (omega arith)
pieces_from-join seg ((c ∷ p) ∷ ps) ((h, pos), hs) =
    let other : (c == b'/') ≡ false = ground (arith, h.0) in
    let inside = pieces_from_run p (c ∷ []) (join ps) h.1 ∙ (pieces_from-join (c ∷ p) ps hs).1 in
    (rw (other, pieces_from) inside, rw (other, pieces_from) (ap (◌∷◌ seg) inside))

-- Splitting a joined path gives its pieces back; more than `max` pieces are refused.
pub split_segments-join :
    (ps : List Bytes) (max : ℕ) → All IsPiece ps → split_segments (join ps) max ≡ within max ps
split_segments-join ps max h =
    split_segments-pieces (join ps) max ∙ ap (within max) (pieces_from-join [] ps h).0
