-- ===== src/Packet/Reject/Codes.antt =====
-- The codes of rejections and of handshake steps stand for one thing each.
use srt_rs.Prelude.{
  ℕ, ◌≡◌, ◌<◌, ◌≤◌, Option, none, some, ℤ, pos, negsuc, refl, ap, sym, ◌∙◌, arith, Option-cases,
  inl, inr,
}
use srt_rs.Packet.Reject.{
  core, server, user, core_unrecognized, server_unrecognized, rejection, induction, waveahand,
  conclusion, agreement, CoreRejectReason, ServerRejectReason, RejectReason, ShakeType, core_code,
  server_code, reject_code, shake_code, core_of, server_of, reject_of, shake_of, core_or_code,
  server_or_code,
}

-- The code of a reason that was found for a number is the number.
Is : {R : Type 0} → (R → ℕ) → ℕ → Option R → Type 0
Is code value none = Unit
Is code value (some r) = code r ≡ value

core_code-core_of : (value : ℕ) → Is core_code value (core_of value)
unfolding Is core_of core_code
core_code-core_of value = ground arith

server_code-server_of : (value : ℕ) → Is server_code value (server_of value)
unfolding Is server_of server_code
server_code-server_of value = ground arith

core_of-core_code : (c : CoreRejectReason) → core_of (core_code c) ≡ some c
unfolding core_of core_code
core_of-core_code c = ground arith

server_of-server_code : (s : ServerRejectReason) → server_of (server_code s) ≡ some s
unfolding server_of server_code
server_of-server_code s = ground arith

core_or_code_lem : (value : ℕ) → reject_code (core_or_code value (core_of value)) ≡ pos value
unfolding Is reject_code
core_or_code_lem value = elim (Option-cases (core_of value)) [
  | inl e ↦ rw e refl
  | inr (c, e) ↦ rw e (ap pos (rw e at (core_code-core_of value)))
]

server_or_code_lem : (value : ℕ) → reject_code (server_or_code value (server_of value)) ≡ pos value
unfolding Is reject_code
server_or_code_lem value = elim (Option-cases (server_of value)) [
  | inl e ↦ rw e refl
  | inr (s, e) ↦ rw e (ap pos (rw e at (server_code-server_of value)))
]

user_code : (u : ℤ) → reject_code (user u) ≡ u
unfolding reject_code
user_code u = refl

reject_code-reject_of : (v : ℤ) (r : RejectReason) → reject_of v ≡ some r → reject_code r ≡ v
unfolding reject_of
reject_code-reject_of (negsuc n) r e = cc
reject_code-reject_of (pos value) r e =
    ground (arith, core_or_code_lem value, server_or_code_lem value, user_code (pos value))

-- A code that is read as a step or a rejection is written as itself.
pub shake_code-shake_of : (v : ℤ) (s : ShakeType) → shake_of v ≡ some s → shake_code s ≡ v
unfolding shake_of shake_code
shake_code-shake_of (negsuc n) s e = ground arith
shake_code-shake_of (pos value) s e = elim (Option-cases (reject_of (pos value))) [
  | inl x ↦ ground (arith, x)
  | inr (r, x) ↦ ground (arith, x, reject_code-reject_of (pos value) r x)
]

-- The reasons that the conversion from a number gives: an unrecognized code has no name.
unfoldable pub IsReject : RejectReason → Type 0
IsReject (core c) = Unit
IsReject (server s) = Unit
IsReject (core_unrecognized (pos n)) = (1000 ≤ n) × (n < 2000) × (core_of n ≡ none)
IsReject (server_unrecognized (pos n)) = (2000 ≤ n) × (n < 3000) × (server_of n ≡ none)
IsReject (user (pos n)) = 3000 ≤ n
IsReject r = ⊥

unfoldable pub IsShake : ShakeType → Type 0
IsShake (rejection r) = IsReject r
IsShake s = Unit

core_code_bounds : (c : CoreRejectReason) → (1000 < core_code c) × (core_code c < 2000)
unfolding core_code
core_code_bounds c = ground arith

server_code_bounds : (s : ServerRejectReason) → (2000 ≤ server_code s) × (server_code s < 3000)
unfolding server_code
server_code_bounds s = ground arith

reject_of-reject_code : (r : RejectReason) → IsReject r → reject_of (reject_code r) ≡ some r
unfolding IsReject reject_of reject_code
reject_of-reject_code (core c) h = ground (arith, core_code_bounds c, core_of-core_code c)
reject_of-reject_code (server s) h = ground (arith, server_code_bounds s, server_of-server_code s)
reject_of-reject_code (core_unrecognized (pos n)) h = ground arith
reject_of-reject_code (server_unrecognized (pos n)) h = ground arith
reject_of-reject_code (user (pos n)) h = ground arith
reject_of-reject_code (core_unrecognized (negsuc n)) h = absurd h
reject_of-reject_code (server_unrecognized (negsuc n)) h = absurd h
reject_of-reject_code (user (negsuc n)) h = absurd h

reject_code_pos : (r : RejectReason) → IsReject r → (n : ℕ) × (reject_code r ≡ pos n) × (1000 ≤ n)
unfolding IsReject reject_code
reject_code_pos (core c) h = (core_code c, refl, omega (arith, core_code_bounds c))
reject_code_pos (server s) h = (server_code s, refl, omega (arith, server_code_bounds s))
reject_code_pos (core_unrecognized (pos n)) h = (n, refl, omega arith)
reject_code_pos (server_unrecognized (pos n)) h = (n, refl, omega arith)
reject_code_pos (user (pos n)) h = (n, refl, omega arith)
reject_code_pos (core_unrecognized (negsuc n)) h = absurd h
reject_code_pos (server_unrecognized (negsuc n)) h = absurd h
reject_code_pos (user (negsuc n)) h = absurd h

-- A step of the handshake that is written is read back.
pub shake_of-shake_code : (s : ShakeType) → IsShake s → shake_of (shake_code s) ≡ some s
unfolding shake_of shake_code IsShake
shake_of-shake_code induction h = refl
shake_of-shake_code waveahand h = refl
shake_of-shake_code conclusion h = refl
shake_of-shake_code agreement h = refl
shake_of-shake_code (rejection r) h =
    let (n, e, large) = reject_code_pos r h in
    let found : reject_of (pos n) ≡ some r = ap reject_of (sym e) ∙ reject_of-reject_code r h in
    rw e (ground (arith, found, large))
