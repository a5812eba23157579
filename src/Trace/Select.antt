-- ===== src/Trace/Select.antt =====
-- The commands of one kind in a trace, in their order: a view that every step of the interleaving
-- respects.
use attacc_simulator_vlm.Prelude.{
  ℕ, zero, suc, ◌+◌, ◌<◌, ◌≤◌, ◌≡◌, refl, Bool, true, false, List, [], ◌∷◌, ◌++◌, append_assoc,
  append-nil, if◌then◌else◌, Result, ok, raise, ◌⊕◌, for_each, range_from, All, arith,
}
use attacc_simulator_vlm.Trace.Command.{
  Opcode, Command, pim_wr_gb, pim_mac_ab, pim_mac_sb, pim_mac_pb, pim_mv_sb, pim_mv_gb, pim_sfm,
  pim_barrier,
}

-- The three MAC commands are of one kind.
pub data Kind : Type 0 where
  wrgb mac mvsb mvgb sfm sync : Kind

abbrev pub kind_of : Opcode → Kind
kind_of pim_wr_gb = wrgb
kind_of pim_mac_ab = mac
kind_of pim_mac_sb = mac
kind_of pim_mac_pb = mac
kind_of pim_mv_sb = mvsb
kind_of pim_mv_gb = mvgb
kind_of pim_sfm = sfm
kind_of pim_barrier = sync

abbrev pub same : Kind → Kind → Bool
same wrgb wrgb = true
same mac mac = true
same mvsb mvsb = true
same mvgb mvgb = true
same sfm sfm = true
same sync sync = true
same _ _ = false

unfoldable pub select : Kind → List Command → List Command
select k [] = []
select k (c ∷ cs) = if same (kind_of c.op) k then c ∷ select k cs else select k cs

-- The trace, or the exception, with only the commands of the kind `k`.
abbrev pub selected : Kind → Result (List Command) → Result (List Command)
selected k (ok cs) = ok (select k cs)
selected k (raise e) = raise e

abbrev pub AllOf : Kind → List Command → Type 0
AllOf k = All (λ c. kind_of c.op ≡ k)

pub select-append :
    (k : Kind) (xs ys : List Command) → select k (xs ++ ys) ≡ select k xs ++ select k ys
unfolding select
select-append k [] ys = refl
select-append k (x ∷ xs) ys = ground (arith, select-append k xs ys)

pub select-AllOf :
    (k j : Kind) (xs : List Command) → AllOf j xs → select k xs ≡ (if same j k then xs else [])
unfolding select
select-AllOf k j [] h = ground arith
select-AllOf k j (x ∷ xs) h = rw (h.0, select-AllOf k j xs h.1) (ground arith)

pub selected-⊕ :
    (k : Kind) (m n : Result (List Command)) → selected k (m ⊕ n) ≡ selected k m ⊕ selected k n
selected-⊕ k (ok xs) (ok ys) = rw select-append
selected-⊕ k (ok xs) (raise e) = refl
selected-⊕ k (raise e) n = refl

module _ {ℓ} {A : Type ℓ} where
  pub ⊕-nil : (m : Result (List A)) → (m ⊕ ok []) ≡ m
  ⊕-nil (ok xs) = rw append-nil
  ⊕-nil (raise e) = refl

  pub nil-⊕ : (m : Result (List A)) → (ok [] ⊕ m) ≡ m
  nil-⊕ (ok xs) = refl
  nil-⊕ (raise e) = refl

  pub ⊕_assoc : (l m n : Result (List A)) → ((l ⊕ m) ⊕ n) ≡ (l ⊕ m ⊕ n)
  ⊕_assoc (ok xs) (ok ys) (ok zs) = rw append_assoc
  ⊕_assoc (ok xs) (ok ys) (raise e) = refl
  ⊕_assoc (ok xs) (raise e) n = refl
  ⊕_assoc (raise e) m n = refl

-- A part of a loop's body that succeeds with commands of one kind.
pub record Emits (k : Kind) (r : Result (List Command)) : Type 0 where
  pub commands : List Command
  pub returns : r ≡ ok commands
  pub all_of : AllOf k commands

pub selected-Emits :
    (k j : Kind) {r : Result (List Command)}
    → Emits j r
    → selected k r ≡ (if same j k then r else ok [])
selected-Emits k j e = rw (e.returns, select-AllOf k j e.commands e.all_of) (push (same j k))
  where
    push : (b : Bool) → ok (if b then e.commands else []) ≡ (if b then ok e.commands else ok [])
    push true = refl
    push false = refl

-- A loop may be read with another body that agrees on its range.
pub for_each_ext {ℓ} :
    {B : Type ℓ} (f g : ℕ → Result (List B)) (i n : ℕ)
    → ((j : ℕ) → i ≤ j → j < i + n → f j ≡ g j)
    → for_each f (range_from i n) ≡ for_each g (range_from i n)
for_each_ext f g i zero h = refl
for_each_ext f g i (suc n) h = rw (
  h i (omega arith) (omega arith),
  for_each_ext f g (suc i) n (λ j a b. h j (omega arith) (omega arith)),
)

pub selected-for_each :
    (k : Kind) (f : ℕ → Result (List Command)) (xs : List ℕ)
    → selected k (for_each f xs) ≡ for_each (λ j. selected k (f j)) xs
unfolding select
selected-for_each k f [] = refl
selected-for_each k f (x ∷ xs) = rw (selected-⊕ k (f x) (for_each f xs), selected-for_each k f xs)
