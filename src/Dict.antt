-- ===== src/Dict.antt =====
-- std::map<std::string, std::string> as the list of its entries in the order of iteration.
use ok.Base.{List, [], ◌∷◌, true, false, Option, none, some, ◌≡◌, refl, arith, if◌then◌else◌, All}
use ok.Text.{Bytes, equal, less}
use ok.Text.Find.{equal_iff}

abbrev pub Dict : Type 0
Dict = List (Bytes × Bytes)

-- `find(key)`, with the value of the entry.
unfoldable pub lookup : Bytes → Dict → Option Bytes
unfolding equal
lookup k [] = none
lookup k ((j, v) ∷ m) = if equal j k then some v else lookup k m

-- `operator[](key) = value`.
unfoldable pub put : Bytes → Bytes → Dict → Dict
unfolding equal less
put k v [] = (k, v) ∷ []
put k v ((j, w) ∷ m) =
    let rest = put k v m in
    if equal j k then (k, v) ∷ m else if less k j then (k, v) ∷ (j, w) ∷ m else (j, w) ∷ rest

-- `insert(pair)`: an entry that is there stays as it is.
unfoldable pub insert : Bytes → Bytes → Dict → Dict
unfolding lookup put
insert k v m = elim (lookup k m) [ none ↦ put k v m | some w ↦ m ]

pub lookup-put :
    (k j v : Bytes) (m : Dict) → lookup j (put k v m) ≡ (if equal k j then some v else lookup j m)
unfolding lookup put
lookup-put k j v [] = refl
lookup-put k j v ((i, w) ∷ m) =
    ground (arith, equal_iff k j, equal_iff i k, equal_iff i j, lookup-put k j v m)

pub lookup-insert :
    (k j v : Bytes) (m : Dict)
    → lookup j (insert k v m)
      ≡ elim (lookup k m) [ none ↦ if equal k j then some v else lookup j m | some w ↦ lookup j m ]
unfolding insert
lookup-insert k j v m = ground (arith, lookup-put k j v m)

-- Every key lies below all later ones: what makes the list the order of a map.
abbrev pub Above : Bytes → Dict → Type 0
Above k = All (λ e. less k e.0 ≡ true)

abbrev pub IsSorted : Dict → Type 0
IsSorted [] = Unit
IsSorted ((k, v) ∷ m) = Above k m × IsSorted m

pub less_trans : (a b c : Bytes) → less a b ≡ true → less b c ≡ true → less a c ≡ true
unfolding less
less_trans a b [] p q = ground arith
less_trans [] b (z ∷ c) p q = refl
less_trans (x ∷ a) [] (z ∷ c) p q = ground arith
less_trans (x ∷ a) (y ∷ b) (z ∷ c) p q = ground (arith, less_trans a b c)

pub less_total : (a b : Bytes) → equal a b ≡ false → less a b ≡ false → less b a ≡ true
unfolding less equal
less_total [] [] p q = ground arith
less_total [] (y ∷ b) p q = ground arith
less_total (x ∷ a) [] p q = refl
less_total (x ∷ a) (y ∷ b) p q = ground (arith, less_total a b)

Above-trans : (j k : Bytes) (m : Dict) → less j k ≡ true → Above k m → Above j m
Above-trans j k [] p h = tt
Above-trans j k (e ∷ m) p h = (less_trans j k e.0 p h.0, Above-trans j k m p h.1)

Above-put : (j k v : Bytes) (m : Dict) → less j k ≡ true → Above j m → Above j (put k v m)
unfolding put
Above-put j k v [] p h = (p, tt)
Above-put j k v ((i, w) ∷ m) p h = ground (arith, Above-put j k v m p h.1)

pub put-IsSorted : (k v : Bytes) (m : Dict) → IsSorted m → IsSorted (put k v m)
unfolding put
put-IsSorted k v [] h = (tt, tt)
put-IsSorted k v ((j, w) ∷ m) h = ground (
  arith,
  equal_iff j k,
  put-IsSorted k v m h.1,
  Above-put j k v m,
  Above-trans k j m,
  less_total j k,
  less_total k j,
)

pub insert-IsSorted : (k v : Bytes) (m : Dict) → IsSorted m → IsSorted (insert k v m)
unfolding insert
insert-IsSorted k v m h = ground (arith, put-IsSorted k v m h)
