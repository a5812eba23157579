-- ===== src/Model/Build/Names.antt =====
-- The names of the groups that `build` fills: those of a routing are all different, and a new name is
-- put behind the others.
use attacc_simulator_vlm.Prelude.{
  ℕ, zero, suc, ◌<◌, ◌≡◌, refl, ap, false, List, [], ◌∷◌, ◌++◌, map, range_from, All, ◌==◌, arith,
}
use attacc_simulator_vlm.Model.Routing.{
  GroupName, l, Mode, conservative, optimistic, list, Entry, Routing, groups_for, to_groups,
}
use attacc_simulator_vlm.Model.Build.{Group, same_group, put_group}

-- No later name is the same as an earlier one.
abbrev pub Distinct : List GroupName → Type 0
Distinct [] = Unit
Distinct (x ∷ xs) = All (λ y. same_group y x ≡ false) xs × Distinct xs

abbrev pub names_of : List Entry → List GroupName
names_of = map (λ (e : Entry). e.group_name)

abbrev pub keys_of : List (GroupName × Group) → List GroupName
keys_of = map (λ (p : GroupName × Group). p.0)

module _ (P : GroupName → Type 0) where
  All-middle :
      (xs : List GroupName) (x : GroupName) (ys : List GroupName) → All P (xs ++ x ∷ ys) → P x
  All-middle [] x ys h = h.0
  All-middle (y ∷ xs) x ys h = All-middle xs x ys h.1

  All-without :
      (xs : List GroupName) (x : GroupName) (ys : List GroupName)
      → All P (xs ++ x ∷ ys)
      → All P (xs ++ ys)
  All-without [] x ys h = h.1
  All-without (y ∷ xs) x ys h = (h.0, All-without xs x ys h.1)

pub Distinct-without :
    (xs : List GroupName) (x : GroupName) (ys : List GroupName)
    → Distinct (xs ++ x ∷ ys)
    → Distinct (xs ++ ys)
Distinct-without [] x ys h = h.1
Distinct-without (y ∷ xs) x ys h = (All-without _ xs x ys h.0, Distinct-without xs x ys h.1)

pub put_group-new :
    (gs : List (GroupName × Group)) (x : GroupName) (g : Group) (rest : List GroupName)
    → Distinct (keys_of gs ++ x ∷ rest)
    → put_group x g gs ≡ gs ++ (x, g) ∷ []
unfolding put_group
put_group-new [] x g rest h = refl
put_group-new ((y, k) ∷ gs) x g rest h =
    rw (All-middle _ (keys_of gs) x rest h.0)
      (ap (λ ps. (y, k) ∷ ps) (put_group-new gs x g rest h.1))

pub keys_of-snoc :
    (gs : List (GroupName × Group)) (x : GroupName) (g : Group) (rest : List GroupName)
    → keys_of (gs ++ (x, g) ∷ []) ++ rest ≡ keys_of gs ++ x ∷ rest
keys_of-snoc [] x g rest = refl
keys_of-snoc ((y, k) ∷ gs) x g rest = ap (λ ns. y ∷ ns) (keys_of-snoc gs x g rest)

later-new :
    (f : ℕ → Entry)
    → ((i : ℕ) → (f i).group_name ≡ l i)
    → (i j n : ℕ) → i < j
    → All (λ y. same_group y (l i) ≡ false) (names_of (map f (range_from j n)))
later-new f named i j zero h = tt
later-new f named i j (suc n) h = (
  (let other : (j == i) ≡ false = ground arith in rw (named j, other)),
  later-new f named i (suc j) n (omega arith),
)

Distinct-range :
    (f : ℕ → Entry)
    → ((i : ℕ) → (f i).group_name ≡ l i)
    → (i n : ℕ) → Distinct (names_of (map f (range_from i n)))
Distinct-range f named i zero = tt
Distinct-range f named i (suc n) =
    (rw (named i) (later-new f named i (suc i) n (omega arith)), Distinct-range f named (suc i) n)

Distinct-groups_for :
    (mode : Mode) (r : Routing) (ndec : ℕ) → Distinct (names_of (groups_for mode r ndec))
unfolding groups_for
Distinct-groups_for conservative r ndec = (tt, tt)
Distinct-groups_for optimistic r ndec = ground arith
Distinct-groups_for list r ndec = Distinct-range _ (λ i. refl) 0 ndec

pub to_groups-Distinct : (r : Routing) (ndec : ℕ) → Distinct (names_of (to_groups r ndec))
unfolding to_groups
to_groups-Distinct r ndec = Distinct-groups_for r.mode r ndec
