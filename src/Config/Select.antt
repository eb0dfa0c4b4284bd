-- ===== src/Config/Select.antt =====
-- Which server block and which location serve a request: returnIteratorServerBlock and
-- returnIteratorLocationPath of srcs/Server_parsing.cpp.
use ok.Base.{
  is_empty, ℕ, suc, ◌+◌, ◌≤◌, List, [], ◌∷◌, ◌++◌, Bool, true, false, not, Option, none, some, ◌≡◌,
  ◌↔◌, ◌⊎◌, inl, inr, refl, sym, ap, ◌∙◌, arith, ◌==◌, ==_iff, if◌then◌else◌, length, All,
}
use ok.Text.{Bytes, equal}
use ok.Text.Find.{equal_iff, equal_refl}
use ok.FilePath.{FilePath, of_string, get_size}
use ok.Config.{LocationPath, ServerBlock}

-- The last element; `none` is the undefined `it--` at the start of an empty vector.
unfoldable pub last {ℓ} : {A : Type ℓ} → List A → Option A
last [] = none
last (x ∷ []) = some x
last (x ∷ y ∷ xs) = last (y ∷ xs)

-- The first element that passes the test, or else the last one.
unfoldable pub scan {ℓ} : {A : Type ℓ} → (A → Bool) → List A → Option A
scan p [] = none
scan p (x ∷ xs) = elim (p x) [ true ↦ some x | false ↦ scan p xs ]

abbrev or_last {ℓ} : {A : Type ℓ} → Option A → List A → Option A
or_last none xs = last xs
or_last (some x) xs = some x

unfoldable pub select_server_block : List ServerBlock → Bytes → Option ServerBlock
unfolding scan last
select_server_block blocks name = or_last (scan (λ b. equal name b.server_name) blocks) blocks

-- How many segments the two paths have in common: the inner loop's `i`.
unfoldable pub common : List Bytes → List Bytes → ℕ → ℕ
common [] _ i = i
common (x ∷ a) [] i = i
common (x ∷ a) (y ∷ b) i = let rest = common a b (suc i) in if not (equal x y) then i else rest

unfoldable pub covers : FilePath → LocationPath → Bool
unfolding common get_size
covers path location =
    common location.location_path.segments path.segments 0 == get_size location.location_path

unfoldable pub select_location_path : List LocationPath → Bytes → Option LocationPath
unfolding scan last covers of_string
select_location_path locations relative =
    or_last (scan (covers (of_string relative)) locations) locations

-- The reference for `covers`: the location's segments begin the path.
abbrev pub Begins : List Bytes → List Bytes → Type 0
Begins a b = (rest : List Bytes) × (b ≡ a ++ rest)

common_bound : (a b : List Bytes) (i : ℕ) → common a b i ≤ i + length a
unfolding common
common_bound [] b i = omega arith
common_bound (x ∷ a) [] i = omega arith
common_bound (x ∷ a) (y ∷ b) i = ground (arith, common_bound a b (suc i))

cons_paths : {x y : Bytes} {a b : List Bytes} → x ≡ y → b ≡ a → ◌≡◌ {A = List Bytes} (y ∷ b) (x ∷ a)
cons_paths {x = x} {b = b} e f = ap (λ t. t ∷ b) (sym e) ∙ ap (λ t. x ∷ t) f

common-Begins : (a b : List Bytes) (i : ℕ) → common a b i ≡ i + length a → Begins a b
unfolding common
common-Begins [] b i h = (b, refl)
common-Begins (x ∷ a) [] i h = absurd (omega arith)
common-Begins (x ∷ a) (y ∷ b) i h = go (common-Begins a b (suc i)) (equal x y) refl
  where
    go :
        (common a b (suc i) ≡ suc i + length a → Begins a b)
        → (v : Bool) → equal x y ≡ v
        → Begins (x ∷ a) (y ∷ b)
    go IH true e = let (rest, f) = IH (ground arith) in (rest, cons_paths ((equal_iff x y).0 e) f)
    go IH false e = absurd (ground arith)

Begins-common : (a rest : List Bytes) (i : ℕ) → common a (a ++ rest) i ≡ i + length a
unfolding common
Begins-common [] rest i = omega arith
Begins-common (x ∷ a) rest i = rw (equal_refl x) (rw (Begins-common a rest (suc i)) (omega arith))

covers_lem :
    (path : FilePath) (location : LocationPath)
    → (covers path location ≡ true) ↔ Begins location.location_path.segments path.segments
unfolding covers get_size
covers_lem path location = (forward, backward)
  where
    forward : covers path location ≡ true → Begins location.location_path.segments path.segments
    forward h =
        common-Begins location.location_path.segments path.segments 0
          ((==_iff _ _).0 h ∙ omega arith)

    backward : Begins location.location_path.segments path.segments → covers path location ≡ true
    backward (rest, e) = (==_iff _ _).1 (
        ap (λ b. common location.location_path.segments b 0) e
        ∙ Begins-common location.location_path.segments rest 0
        ∙ omega arith)

-- Where an element stands that the search returns: every element before it fails the test, and it
-- passes the test or is the last.
abbrev pub IsFirstOrLast {ℓ} : {A : Type ℓ} → (A → Bool) → List A → A → Type ℓ
IsFirstOrLast {A = A} p xs x =
    (before after : List A) × (xs ≡ before ++ (x ∷ after))
    × All (λ y. p y ≡ false) before
    × ((p x ≡ true) ⊎ (after ≡ []))

IsFirstOrLast-cons {ℓ} :
    {A : Type ℓ} (p : A → Bool) (y : A) (xs : List A) (x : A)
    → p y ≡ false
    → IsFirstOrLast p xs x
    → IsFirstOrLast p (y ∷ xs) x
IsFirstOrLast-cons p y xs x e (before, after, f, all, which) =
    (y ∷ before, after, ap (λ t. y ∷ t) f, (e, all), which)

no_both : {v : Bool} → v ≡ false → v ≡ true → ⊥
no_both e f = ground arith

All-map {ℓ κ μ} :
    {A : Type ℓ} {P : A → Type κ} {Q : A → Type μ}
    → ((x : A) → P x → Q x)
    → (xs : List A) → All P xs
    → All Q xs
All-map f [] h = tt
All-map f (x ∷ xs) (h, t) = (f x h, All-map f xs t)

scan-IsFirstOrLast {ℓ} :
    {A : Type ℓ} (p : A → Bool) (xs : List A) (x : A)
    → or_last (scan p xs) xs ≡ some x
    → IsFirstOrLast p xs x
unfolding scan last
scan-IsFirstOrLast p [] x h = absurd (cc h)
scan-IsFirstOrLast p (y ∷ []) x h = go (p y) refl
  where
    go : (v : Bool) → p y ≡ v → IsFirstOrLast p (y ∷ []) x
    go true e = ([], [], ground arith, tt, inr refl)
    go false e = ([], [], ground arith, tt, inr refl)
scan-IsFirstOrLast p (y ∷ z ∷ zs) x h = go (scan-IsFirstOrLast p (z ∷ zs) x) (p y) refl
  where
    go :
        (or_last (scan p (z ∷ zs)) (z ∷ zs) ≡ some x → IsFirstOrLast p (z ∷ zs) x)
        → (v : Bool) → p y ≡ v
        → IsFirstOrLast p (y ∷ z ∷ zs) x
    go IH true e = ([], z ∷ zs, ground arith, tt, inl (ground arith))
    go IH false e = IsFirstOrLast-cons p y (z ∷ zs) x e (IH (ground arith))

-- A request is served by the first location whose segments begin the path of the request, and by
-- the last location when there is none.
pub select_location_path-first :
    (locations : List LocationPath) (relative : Bytes) (location : LocationPath)
    → select_location_path locations relative ≡ some location
    → (before after : List LocationPath) × (locations ≡ before ++ (location ∷ after))
      × All (λ l. ¬ Begins l.location_path.segments (of_string relative).segments) before
      × (Begins location.location_path.segments (of_string relative).segments ⊎ (after ≡ []))
unfolding select_location_path
select_location_path-first locations relative location h =
    go (scan-IsFirstOrLast (covers (of_string relative)) locations location h)
  where
    go :
        IsFirstOrLast (covers (of_string relative)) locations location
        → (before after : List LocationPath) × (locations ≡ before ++ (location ∷ after))
          × All (λ l. ¬ Begins l.location_path.segments (of_string relative).segments) before
          × (Begins location.location_path.segments (of_string relative).segments ⊎ (after ≡ []))
    go (before, after, e, all, which) = (
      before,
      after,
      e,
      All-map (λ l f g. no_both f ((covers_lem (of_string relative) l).1 g)) before all,
      elim which [ inl f ↦ inl ((covers_lem (of_string relative) location).0 f) | inr f ↦ inr f ],
    )

or_last-All {ℓ κ} :
    {A : Type ℓ} (P : A → Type κ) (p : A → Bool) (xs : List A)
    → All P xs
    → is_empty xs ≡ false
    → (x : A) × (or_last (scan p xs) xs ≡ some x) × P x
unfolding scan last
or_last-All P p [] h e = absurd (ground arith)
or_last-All {A = A} P p (x ∷ []) h e = go (p x) refl
  where
    go : (v : Bool) → p x ≡ v → (y : A) × (or_last (scan p (x ∷ [])) (x ∷ []) ≡ some y) × P y
    go true f = (x, ground arith, h.0)
    go false f = (x, ground arith, h.0)
or_last-All {A = A} P p (x ∷ z ∷ zs) h e = go (p x) refl (or_last-All P p (z ∷ zs) h.1 refl)
  where
    go :
        (v : Bool)
        → p x ≡ v
        → (y : A) × (or_last (scan p (z ∷ zs)) (z ∷ zs) ≡ some y) × P y
        → (y : A) × (or_last (scan p (x ∷ z ∷ zs)) (x ∷ z ∷ zs) ≡ some y) × P y
    go true f IH = (x, ground arith, h.0)
    go false f (y, g, k) = (y, ground arith, k)

pub select_server_block-All {κ} :
    (P : ServerBlock → Type κ) (blocks : List ServerBlock) (name : Bytes)
    → All P blocks
    → is_empty blocks ≡ false
    → (block : ServerBlock) × (select_server_block blocks name ≡ some block) × P block
unfolding select_server_block
select_server_block-All P blocks name h e = or_last-All P (λ b. equal name b.server_name) blocks h e

pub select_location_path-some :
    (locations : List LocationPath) (relative : Bytes)
    → is_empty locations ≡ false
    → (location : LocationPath) × (select_location_path locations relative ≡ some location)
unfolding select_location_path
select_location_path-some locations relative e =
    let (location, f, _) =
      or_last-All (λ _. Unit {0}) (covers (of_string relative)) locations (All-unit locations) e in
    (location, f)
  where
    All-unit : (xs : List LocationPath) → All (λ _. Unit {0}) xs
    All-unit [] = tt
    All-unit (x ∷ xs) = (tt, All-unit xs)
