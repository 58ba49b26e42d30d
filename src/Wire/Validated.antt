-- ===== src/Wire/Validated.antt =====
-- internal/runtime/parse.go: what a parsed status is like.
use infer_swap.Common.{
  ℕ, ◌<◌, ◌^◌, Bool, true, false, ◌≡◌, subst, Option, none, some, String, Result, ok, err,
  >>=-eq-ok, ok-inj, arith, Bool-cases, inl, inr,
}
use infer_swap.Wire.{WireState, Residency, Status, LastError, validate_status}
use infer_swap.Wire.Json.{Json, Members, as_integer}
use infer_swap.Wire.Parse.{
  StatusError, parse_status, required, decode_string, decode_active, active_of, is_null,
  decode_last_error, decode_members, state_of, residency_of, valid_or, body_map, inconsistent,
}

-- What every parsed status is like.
abbrev pub IsParsed : Status → Type 0
IsParsed st = (validate_status st ≡ true) × (st.active_requests < 2 ^ 63)

valid_or-IsParsed :
    (s t : String) (a : Option WireState) (b : Option Residency) (n : ℕ) (e : Option LastError)
    (st : Status)
    → n < 2 ^ 63
    → valid_or s t a b n e ≡ ok st
    → IsParsed st
valid_or-IsParsed s t none b n e st small h = absurd cc
valid_or-IsParsed s t (some a) none n e st small h = absurd cc
valid_or-IsParsed s t (some a) (some b) n e st small h =
    let made : Status = record { state = a; residency = b; active_requests = n; last_error = e } in
    elim (Bool-cases (validate_status made)) [
      | inl valid ↦
          let same : ◌≡◌ {A = Result StatusError Status} (ok made) (ok st) = ground arith in
          subst IsParsed (ok-inj same) (valid, small)
      | inr bad ↦
          let wrong : ◌≡◌ {A = Result StatusError Status} (err inconsistent) (ok st) =
            ground arith in
          absurd cc
    ]

active_of_small : (o : Option (Bool × ℕ)) (n : ℕ) → active_of o ≡ ok n → n < 2 ^ 63
active_of_small none n h = absurd cc
active_of_small (some (true, k)) n h = ground arith
active_of_small (some (false, k)) n h = ground arith

decode_active_small : (v : Json) (n : ℕ) → decode_active v ≡ ok n → n < 2 ^ 63
unfolding decode_active
decode_active_small v n h = elim (Bool-cases (is_null v)) [
  | inl null_value ↦ absurd (ground (arith, h))
  | inr other ↦ active_of_small (as_integer v) n (ground (arith, h))
]

decode_members-IsParsed : (ms : Members) (st : Status) → decode_members ms ≡ ok st → IsParsed st
unfolding decode_members
decode_members-IsParsed ms st h =
    let (raw_state, _, h₁) = >>=-eq-ok (required "state" ms) _ h in
    let (raw_residency, _, h₂) = >>=-eq-ok (required "residency" ms) _ h₁ in
    let (raw_active, _, h₃) = >>=-eq-ok (required "active_requests" ms) _ h₂ in
    let (raw_last, _, h₄) = >>=-eq-ok (required "last_error" ms) _ h₃ in
    let (s, _, h₅) = >>=-eq-ok (decode_string raw_state "state") _ h₄ in
    let (t, _, h₆) = >>=-eq-ok (decode_string raw_residency "residency") _ h₅ in
    let (n, e₇, h₇) = >>=-eq-ok (decode_active raw_active) _ h₆ in
    let (e, _, h₈) = >>=-eq-ok (decode_last_error raw_last) _ h₇ in
    valid_or-IsParsed s t (state_of s) (residency_of t) n e st (decode_active_small raw_active n e₇)
      h₈

-- A status that is parsed passes the validation, and its active requests are an int64.
pub parse_status-IsParsed :
    (body : Option Json) (st : Status) → parse_status body ≡ ok st → IsParsed st
unfolding parse_status
parse_status-IsParsed body st h =
    let (ms, _, h₁) = >>=-eq-ok (body_map body) _ h in decode_members-IsParsed ms st h₁
