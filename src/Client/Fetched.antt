-- ===== src/Client/Fetched.antt =====
-- internal/runtime/client.go: what a fetched status rests on, which errors stand for an endpoint that is
-- down, and how many prepare commands run.
use infer_swap.Common.{
  ℕ, Bool, true, false, ◌≡◌, ◌≢◌, refl, ap, Option, some, List, [], ◌∷◌, String, ◌==◌,
  if◌then◌else◌, ==_iff, arith, Result, ok, err, ok-inj, codes,
}
use infer_swap.Wire.{Status, validate_status, classify_recovery, RecoveryClass}
use infer_swap.Wire.Matrix.{classify_recovery-validate_status}
use infer_swap.Wire.Validated.{IsParsed, parse_status-IsParsed}
use infer_swap.Wire.Json.{Json}
use infer_swap.Wire.Parse.{StatusError, parse_status}
use infer_swap.Client.Calls.{
  go_error, Wrapped, no_url, url_error, is_endpoint_down, Exchange, broken, answered, parsed,
  fetch_status, plain, Prepare, PrepareEvent, called, command_ended, prepare_step, prepare_run,
  new_prepare,
}

-- The flag of a prepare, and the commands that run.
abbrev IsSingle : Prepare → Type 0
IsSingle p = (p.running ≡ (if p.busy then 1 else 0))

prepare_step-IsSingle : (e : PrepareEvent) (p : Prepare) → IsSingle p → IsSingle (prepare_step e p)
unfolding prepare_step
prepare_step-IsSingle called p h = ground (arith, h)
prepare_step-IsSingle command_ended p h = ground (arith, h)

prepare_run-IsSingle :
    (es : List PrepareEvent) (p : Prepare) → IsSingle p → IsSingle (prepare_run es p)
prepare_run-IsSingle [] p h = h
prepare_run-IsSingle (e ∷ es) p h =
    prepare_run-IsSingle es (prepare_step e p) (prepare_step-IsSingle e p h)

-- At most one prepare command of a client runs at any time, whenever it is called and whether the calls
-- wait for its end or not; the flag is set exactly while it runs.
pub prepare_run_single :
    (argv : Option (List String)) (es : List PrepareEvent)
    → let p = prepare_run es (new_prepare argv) in p.running ≡ (if p.busy then 1 else 0)
prepare_run_single argv es = prepare_run-IsSingle es (new_prepare argv) refl

-- The branch that a successful conditional took.
taken_branch :
    {E A : Type 0} (b : Bool) (x : Result E A) (e : E) (a : A)
    → (if b then x else err e) ≡ ok a
    → (b ≡ true) × (x ≡ ok a)
taken_branch true x e a h = (refl, h)
taken_branch false x e a h = absurd cc

not_both : (b : Bool) → b ≡ true → b ≢ false
not_both true h k = cc
not_both false h k = cc

parsed-ok : (r : Result StatusError Status) (st : Status) → parsed r ≡ ok st → r ≡ ok st
parsed-ok (ok a) st h = ap ok (ok-inj h)
parsed-ok (err e) st h = absurd cc

-- A status that is fetched has come with code 200 and a body that parses. It passes the validation, its
-- active requests are an int64, and the recovery matrix has a row for it: the invalid class is never
-- that of a status from the endpoint.
pub fetch_status-IsParsed :
    (x : Exchange) (st : Status)
    → fetch_status x ≡ ok st
    → ((body : Option Json) × (x ≡ answered 200 body) × (parse_status body ≡ ok st))
      × IsParsed st
      × (classify_recovery st ≢ RecoveryClass.invalid)
unfolding fetch_status
fetch_status-IsParsed (broken e) st h = absurd cc
fetch_status-IsParsed (answered code body) st h =
    let (good, step) =
      taken_branch (code == 200) (parsed (parse_status body)) (plain (codes "status: HTTP ")) st
        h in
    let read = parsed-ok (parse_status body) st step in
    let valid = parse_status-IsParsed body st read in
    (
      (body, ap (λ c. answered c body) ((==_iff code 200).0 good), read),
      valid,
      (λ bad. not_both (validate_status st) valid.0 ((classify_recovery-validate_status st).0 bad)),
    )

-- A timeout is no endpoint that is down, unless an end of file is in its chain.
is_endpoint_down-timeout :
    (op : Bool) (w : Wrapped) (msg : List ℕ)
    → is_endpoint_down (go_error false (some true) op w msg) ≡ false
unfolding is_endpoint_down
is_endpoint_down-timeout op no_url msg = refl
is_endpoint_down-timeout op (url_error t inner) msg = refl
