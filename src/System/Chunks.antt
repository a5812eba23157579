-- ===== src/System/Chunks.antt =====
-- The chunks of a prefill: they make up the prompt, and each attends to what stands before it.
use attacc_simulator_vlm.Prelude.{ℕ, zero, suc, ◌+◌, ◌*◌, ◌≡◌, ◌≤◌, ◌<◌, min, arith, ceil_div}
use attacc_simulator_vlm.System.{chunk_size_of, n_chunks_of, chunk_tokens, accumulated_l}

-- The tokens of the first `n` chunks.
abbrev pub tokens_before : (chunk_size total_l n : ℕ) → ℕ
tokens_before chunk_size total_l zero = 0
tokens_before chunk_size total_l (suc n) =
    tokens_before chunk_size total_l n + chunk_tokens chunk_size total_l n

tokens_before-min :
    (chunk_size total_l n : ℕ) → tokens_before chunk_size total_l n ≡ min total_l (n * chunk_size)
tokens_before-min chunk_size total_l zero = omega arith
tokens_before-min chunk_size total_l (suc n) = omega (arith, tokens_before-min chunk_size total_l n)

ceil_div-enough : (total_l c : ℕ) → 0 < c → total_l ≤ ceil_div total_l c * c
ceil_div-enough total_l c h = grind arith

ceil_div-below : (total_l c i : ℕ) → 0 < c → i < ceil_div total_l c → i * c < total_l
ceil_div-below total_l c i h k = grind arith

accumulated-tokens :
    (total_l c i : ℕ)
    → 0 < c
    → i * c < total_l
    → (0 < chunk_tokens c total_l i) × (accumulated_l c total_l i ≡ tokens_before c total_l (suc i))
accumulated-tokens total_l c i h k = (omega arith, omega (arith, tokens_before-min c total_l i))

all_tokens_lem : (total_l m r : ℕ) → total_l ≤ m → r ≡ min total_l m → r ≡ total_l
all_tokens_lem total_l m r h e = omega (arith, e)

-- For a chunk of a prompt, whatever chunk size is configured: the chunks make up the prompt, the chunk has a
-- token, and it is simulated with the length of the prompt up to its end.
pub tokens_before-accumulated_l :
    (prefill_chunk_size total_l i : ℕ)
    → i < n_chunks_of (chunk_size_of prefill_chunk_size total_l) total_l
    → let chunk_size = chunk_size_of prefill_chunk_size total_l in
      (tokens_before chunk_size total_l (n_chunks_of chunk_size total_l) ≡ total_l)
      × (0 < chunk_tokens chunk_size total_l i)
      × (accumulated_l chunk_size total_l i ≡ tokens_before chunk_size total_l (suc i))
tokens_before-accumulated_l prefill_chunk_size total_l i below =
    let c = chunk_size_of prefill_chunk_size total_l in
    let positive : 0 < c = omega arith in
    let started : i * c < total_l = ceil_div-below total_l c i positive below in
    let rest = accumulated-tokens total_l c i positive started in
    let enough : total_l ≤ ceil_div total_l c * c = ceil_div-enough total_l c positive in
    let all_tokens = tokens_before-min c total_l (ceil_div total_l c) in
    (all_tokens_lem total_l _ _ enough all_tokens, rest.0, rest.1)
