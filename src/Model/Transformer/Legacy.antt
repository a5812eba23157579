-- ===== src/Model/Transformer/Legacy.antt =====
-- A legacy list of six numbers (`_list_to_dict`) gives a model whose shards are even, if the sizes are
-- multiples of the number of devices.
use attacc_simulator_vlm.Prelude.{
  ℕ, ◌+◌, ◌*◌, ◌/◌, ◌<◌, ◌≤◌, ◌≡◌, refl, min, false, ◌==◌, arith, ok, Result, ◌>>=◌, raise,
}
use native.Mathlib.Nat.{mul-mod_left, mul-div_cancel_left}
use attacc_simulator_vlm.Model.Transformer.{Transformer, list_to_dict, new_transformer}
use attacc_simulator_vlm.Model.Decoder.Splits.{IsSharded, IsSplit}

multiple : (a b : ℕ) → 0 < b → IsSplit (a * b) b
multiple a b h = record { some_parts = h; even = mul-mod_left a b }

multiple_of : (v a b : ℕ) → v ≡ a * b → 0 < b → IsSplit v b
multiple_of v a b e h = rw e (multiple a b h)

abbrev pub IsOkWith : (Transformer → Type 0) → Result Transformer → Type 0
IsOkWith P (ok t) = P t
IsOkWith P (raise e) = ⊥

module _ {P Q : Transformer → Type 0} where
  pub IsOkWith-map :
      ((t : Transformer) → P t → Q t) → (r : Result Transformer) → IsOkWith P r → IsOkWith Q r
  IsOkWith-map f (ok t) h = f t h
  IsOkWith-map f (raise e) h = elim h [ ]

module _ {P Q R : Transformer → Type 0} where
  pub IsOkWith-both :
      ((t : Transformer) → P t → Q t → R t)
      → (r : Result Transformer) → IsOkWith P r
      → IsOkWith Q r
      → IsOkWith R r
  IsOkWith-both f (ok t) h k = f t h k
  IsOkWith-both f (raise e) h k = elim h [ ]

-- For a list with `c` key-value heads for each of `tp` devices, `gqa` query heads for each of these, and
-- hidden and feed-forward sizes that are multiples of `tp`, the constructor succeeds, and its model
-- has even shards and the list's layers.
pub new_transformer-IsSharded :
    (ndec hidden gqa c dhead ff tp : ℕ)
    → 0 < tp
    → 0 < gqa
    → 0 < c
    → IsOkWith
        (λ t. IsSharded t 2 × (t.ndec ≡ ndec) × (t.num_q_heads ≡ gqa * t.num_kv_heads))
        (list_to_dict ndec (hidden * tp) (gqa * (c * tp)) dhead (ff * tp) gqa >>= λ infos.
          new_transformer infos tp)
unfolding list_to_dict new_transformer
new_transformer-IsSharded ndec hidden gqa c dhead ff tp some_devices some_gqa some_heads =
    let grouped : (gqa == 0) ≡ false = ground arith in
    let heads : (gqa * (c * tp)) / gqa ≡ c * tp = mul-div_cancel_left (c * tp) some_gqa in
    let at_least : tp ≤ c * tp = grind arith in
    let all_heads : 0 < gqa * (c * tp) = grind arith in
    let some_q : (gqa * (c * tp) == 0) ≡ false = ground arith in
    let some_kv : (c * tp == 0) ≡ false = ground arith in
    let devices : min tp (c * tp) ≡ tp = omega arith in
    rw (grouped, heads, some_q, some_kv, devices)
      (
        record {
          one_size = refl;
          q_heads = multiple_of _ (gqa * c) tp (omega arith) some_devices;
          kv_heads = multiple c tp some_devices;
          qkv = multiple_of _ (gqa * c * dhead + 2 * (c * dhead)) tp (omega arith) some_devices;
          q_out = multiple_of _ (gqa * c * dhead) tp (omega arith) some_devices;
          kv_out = multiple_of _ (c * dhead) tp (omega arith) some_devices;
          q_returned = multiple_of _ (gqa * c * dhead) tp (omega arith) some_devices;
          hidden = multiple hidden tp some_devices;
          intermediate = multiple ff tp some_devices;
          supported = refl;
        },
        refl,
        refl,
      )
