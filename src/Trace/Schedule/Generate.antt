-- ===== src/Trace/Schedule/Generate.antt =====
-- The lists that the calls of `Attention` leave: one entry for each iteration, in order, and the
-- channels of all iterations add up to the heads.
use attacc_simulator_vlm.Prelude.{
  ℕ, zero, suc, ◌+◌, ◌-◌, ◌*◌, ◌%◌, ◌≤◌, ◌<◌, ◌≡◌, refl, sym, ◌∙◌, ap, true, false, List, [], ◌∷◌,
  ◌++◌, map, append_assoc, append-nil, ◌==◌, ltb, range, range_from, arith, length, length-append,
  ceil_div,
}
use native.Mathlib.Decide.{dec_le}
use attacc_simulator_vlm.Trace.Command.{Settings, n_channel}
use attacc_simulator_vlm.Trace.Head.{Head, extend_at, no_commands}
use attacc_simulator_vlm.Trace.Schedule.{
  Generator, generate, append_attention, channels_at, partition_size, v_offset,
}

extend_at-snoc :
    (hs : List Head) (new : Head)
    → extend_at (length hs) new (hs ++ no_commands new.valid_channel ∷ []) ≡ hs ++ new ∷ []
extend_at-snoc [] new = refl
extend_at-snoc (h ∷ hs) new = ap (λ (l : List Head). h ∷ l) (extend_at-snoc hs new)

module _ (g : Generator) (s : Settings) (L n_head : ℕ) where
  -- The entry that the iteration `itr` fills.
  abbrev pub head_of : ℕ → Head
  head_of itr =
      g.attention (channels_at n_head itr) L (itr * partition_size s)
        (itr * partition_size s + v_offset)

  generate_from :
      (k itr : ℕ) (heads : List Head)
      → itr ≡ length heads
      → generate g s L n_head k itr heads ≡ heads ++ map head_of (range_from itr k)
  unfolding generate append_attention
  generate_from zero itr heads e = sym (append-nil heads)
  generate_from (suc k) itr heads e = rw e (
      rw (extend_at-snoc heads (head_of (length heads))) (
        generate_from k (suc (length heads)) (heads ++ head_of (length heads) ∷ [])
          (omega (arith, length-append heads (head_of (length heads) ∷ [])))
        ∙ append_assoc heads (head_of (length heads) ∷ [])
            (map head_of (range_from (suc (length heads)) k))))

  -- From empty lists, the iterations fill one entry each.
  pub generate-eq-map : (k : ℕ) → generate g s L n_head k 0 [] ≡ map head_of (range k)
  generate-eq-map k = generate_from k 0 [] refl

-- The channels that the iterations from `itr` use, `k` of them.
abbrev pub channels_from : ℕ → ℕ → ℕ → ℕ
channels_from n_head itr zero = 0
channels_from n_head itr (suc k) = channels_at n_head itr + channels_from n_head (suc itr) k

channels_at-full : (n itr : ℕ) → (itr + 1) * 16 ≤ n → channels_at n itr ≡ 16
unfolding channels_at
channels_at-full n itr h = ground arith

channels_at-last :
    (n itr : ℕ) → itr * 16 < n → n < (itr + 1) * 16 → channels_at n itr ≡ n - itr * 16
unfolding channels_at
channels_at-last n itr lo hi =
    let r : n % 16 ≡ n - itr * 16 = omega arith in
    let inside : ltb n ((itr + 1) * 16) ≡ true = ground arith in
    let some_left : (n - itr * 16 == 0) ≡ false = ground arith in rw (inside, r, some_left)

channels_from-eq :
    (n itr k : ℕ) → itr + k ≡ ceil_div n n_channel → channels_from n itr k ≡ n - itr * 16
channels_from-eq n itr zero e = omega arith
channels_from-eq n itr (suc k) e = elim (dec_le ((itr + 1) * 16) n) [
  | yes full ↦
      omega (arith, channels_at-full n itr full, channels_from-eq n (suc itr) k (omega arith))
  | no short ↦ omega (
    arith,
    channels_at-last n itr (omega arith) (omega arith),
    channels_from-eq n (suc itr) k (omega arith),
  )
]

-- The channels of all iterations add up to the heads.
pub channels_sum : (n : ℕ) → channels_from n 0 (ceil_div n n_channel) ≡ n
channels_sum n = omega (arith, channels_from-eq n 0 (ceil_div n n_channel) (omega arith))

pub channels_at_pos : (n itr : ℕ) → 0 < channels_at n itr
unfolding channels_at
channels_at_pos n itr = ground arith
