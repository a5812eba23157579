-- ===== src/Model/Work.antt =====
-- The work that a list of layers stands for: its FLOPs by the kind of layer, and the bytes it sends.
use attacc_simulator_vlm.Prelude.{
  ℕ, ◌+◌, Bool, true, false, ◌≡◌, refl, ap, List, [], ◌∷◌, ◌++◌, if◌then◌else◌, arith, Bool-cases,
  inl, inr,
}
use attacc_simulator_vlm.Model.Types.{LayerType, FfnType, gated, standard}
use attacc_simulator_vlm.Model.Layer.{Layer, get_flops, get_size}

abbrev pub is_fc : Layer → Bool
is_fc l = elim l.type [ LayerType.fc ↦ true | _ ↦ false ]

abbrev pub is_matmul : Layer → Bool
is_matmul l = elim l.type [ LayerType.matmul ↦ true | _ ↦ false ]

abbrev pub is_softmax : Layer → Bool
is_softmax l = elim l.type [ LayerType.softmax ↦ true | _ ↦ false ]

abbrev pub is_x2g : Layer → Bool
is_x2g l = elim l.type [ LayerType.x2g ↦ true | _ ↦ false ]

-- The sum of a number over the layers of one kind.
abbrev pub sum_over : (Layer → Bool) → (Layer → ℕ) → List Layer → ℕ
sum_over p f [] = 0
sum_over p f (l ∷ ls) = let rest = sum_over p f ls in if p l then f l + rest else rest

abbrev pub flops : (Layer → Bool) → List Layer → ℕ
flops p = sum_over p get_flops

-- `get_size()[2]`
abbrev pub out_bytes : Layer → ℕ
out_bytes l = (get_size l).2

abbrev pub x2g_bytes : List Layer → ℕ
x2g_bytes = sum_over is_x2g out_bytes

-- The matrices of a feed-forward block.
abbrev pub ffn_matrices : FfnType → ℕ
ffn_matrices gated = 3
ffn_matrices standard = 2

-- A list of layers without the transfers between the GPU and the accelerator.
abbrev pub without_x2g : List Layer → List Layer
without_x2g [] = []
without_x2g (l ∷ ls) = let rest = without_x2g ls in if is_x2g l then rest else l ∷ rest

pub sum_over-append :
    (p : Layer → Bool) (f : Layer → ℕ) (xs ys : List Layer)
    → sum_over p f (xs ++ ys) ≡ sum_over p f xs + sum_over p f ys
sum_over-append p f [] ys = omega arith
sum_over-append p f (x ∷ xs) ys = elim (Bool-cases (p x)) [
  | inl kept ↦ rw kept (omega (arith, sum_over-append p f xs ys))
  | inr left ↦ rw left (sum_over-append p f xs ys)
]

-- The layers that stand under an `if`.
abbrev pub items_if {ℓ} : {A : Type ℓ} → Bool → List A → List A
items_if true xs = xs
items_if false xs = []

pub sum_over-items_if :
    (p : Layer → Bool) (f : Layer → ℕ) (b : Bool) (xs ys : List Layer)
    → sum_over p f (items_if b xs ++ ys) ≡ (if b then sum_over p f xs else 0) + sum_over p f ys
sum_over-items_if p f true xs ys = sum_over-append p f xs ys
sum_over-items_if p f false xs ys = omega arith

pub without_x2g-append :
    (xs ys : List Layer) → without_x2g (xs ++ ys) ≡ without_x2g xs ++ without_x2g ys
without_x2g-append [] ys = refl
without_x2g-append (x ∷ xs) ys = elim (Bool-cases (is_x2g x)) [
  | inl sent ↦ rw sent (without_x2g-append xs ys)
  | inr kept ↦ rw kept (ap (λ ls. x ∷ ls) (without_x2g-append xs ys))
]
