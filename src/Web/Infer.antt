-- ===== src/Web/Infer.antt =====
-- internal/server/server.go: handleInfer, limitBody and handleUnsupported. Of a request: the model of
-- its query, its Content-Length as an int64, and its body.
use infer_swap.Common.{
  ℕ, ◌&&◌, ◌||◌, Option, none, some, List, String, length, leb, slt, same_text, is_blank,
  if◌then◌else◌,
}
use infer_swap.Config.Types.{Config, Model}
use infer_swap.Config.Load.{resolve, find}
use infer_swap.Web.Errors.{Chain}

-- A body: none, the bytes that it has, or an error while it is read.
pub data Body : Type 0 where
  no_body : Body
  bytes : List ℕ → Body
  broken : String → Body

pub record Request : Type 0 where
  pub path : String
  pub model : String
  pub content_length : ℕ
  pub body : Body

abbrev extract_error : ℕ → String → String → Chain
extract_error status code msg = record {
  text = msg;
  sched = none;
  extract = some (record { status = status; code = code; msg = msg });
}

abbrev pub no_model : Chain
no_model = extract_error 400 "BAD_REQUEST" "model is required"

abbrev pub body_too_large : Chain
body_too_large = extract_error 413 "BODY_TOO_LARGE" "request body too large"

abbrev pub model_unknown : Chain
model_unknown = extract_error 404 "NOT_FOUND" "model not found"

abbrev pub unsupported : Chain
unsupported = extract_error 404 "NOT_FOUND" "unsupported path"

-- What a handler does: it answers an error, or hands the request to the router, or says 200.
pub data Handled : Type 0 where
  refused : Chain → Handled
  serve : String → Request → Handled
  empty_ok : Handled

pub data Limited : Type 0 where
  limited : Request → Limited
  failed : Chain → Limited

-- What the limited reader makes of a body.
unfoldable pub read_limited : Request → ℕ → Body → Limited
read_limited r n no_body = limited r
read_limited r n (broken text) = failed (record { text = text; sched = none; extract = none })
read_limited r n (bytes bs) =
    if leb (length bs) n
    then limited (record r { body = bytes bs; content_length = length bs })
    else failed body_too_large

unfoldable pub limit_body : Request → ℕ → Limited
unfolding read_limited
limit_body r n =
    if slt n r.content_length
    then failed body_too_large
    else if slt n 0
    then limited r
    else read_limited r n r.body

abbrev pub handed : String → Limited → Handled
handed id (limited r) = serve id r
handed id (failed e) = refused e

-- The request for a model that is found. The model is taken out of the query.
unfoldable pub infer_model : String → Model → Request → Handled
unfolding limit_body
infer_model id m r =
    let r' : Request = record r { path = m.inference_path; model = "" } in
    if slt 0 m.max_body_bytes && slt m.max_body_bytes r.content_length
    then refused body_too_large
    else if slt 0 m.max_body_bytes
    then handed id (limit_body r' m.max_body_bytes)
    else serve id r'

abbrev pub or_zero : Model → Option Model → Model
or_zero zero none = zero
or_zero zero (some m) = m

-- `zero` is the zero value of a model, that the map gives for an id that it does not hold.
unfoldable pub handle_infer : Config → Model → Request → Handled
unfolding infer_model
handle_infer cfg zero r =
    if is_blank r.model then refused no_model else elim (resolve cfg r.model) [
      | none ↦ refused model_unknown
      | some id ↦ infer_model id (or_zero zero (find id cfg.models)) r
    ]

unfoldable pub handle_unsupported : Request → Handled
handle_unsupported r =
    if same_text r.path "/health" || same_text r.path "/v1/models"
    then empty_ok
    else refused unsupported
