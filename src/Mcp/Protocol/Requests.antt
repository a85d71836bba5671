-- ===== src/Mcp/Protocol/Requests.antt =====
-- What `_request` of mcp_server/bridge_mcp/protocol.py reflects of an answer.
use php_python_ai_bridge.Base.{
  ℕ, ◌≡◌, ◌⊎◌, inl, inr, refl, true, not, List, [], ◌∷◌, Option, none, some, String, ltb, between,
  ◌==◌, nat_eq, arith, if_ind, Bool-cases,
}
use php_python_ai_bridge.Json.{
  Value, null, boolean, int, negative_int, float, infinite, str, broken_str, arr, obj, members,
  field,
}
use php_python_ai_bridge.Mcp.Protocol.{
  Result, ok, bridge_error, raised, Response, is_error_code, reflected, error_code, body_of,
  retry_after_of, request, answered, is_json, Decoded, json_value, not_json, too_deep, Payload,
  no_payload, bytes, unencodable, reflect, decode,
}

-- The reasons that let an exception of another class through: the body to send, or an answer in JSON that is
-- nested too deep.
abbrev IsTooDeep : Option Response → Type 0
IsTooDeep none = ⊥
IsTooDeep (some r) = (is_json r.content_type ≡ true) × (r.decoded ≡ too_deep)

-- A body, of an answer with a status from 200 to 299; or an error whose code is made of lower-case letters
-- and underscores, with a Retry-After only for the status 429; or one of the reasons.
abbrev pub IsReflection : Payload → Option Response → Result → Type 0
IsReflection p none (ok b) = ⊥
IsReflection p (some r) (ok b) = between 200 299 r.status ≡ true
IsReflection p response (bridge_error code status retry_after) =
    (is_error_code code ≡ true) × ((retry_after ≡ none) ⊎ (status ≡ some 429))
IsReflection p response raised = (p ≡ unencodable) ⊎ IsTooDeep response

reflected-is_error_code : (v : Option Value) → is_error_code (reflected v) ≡ true
unfolding reflected is_error_code
reflected-is_error_code (some (str code)) =
    if_ind (λ c. is_error_code c ≡ true) (is_error_code code) (λ good. good) (λ bad. refl)
reflected-is_error_code none = refl
reflected-is_error_code (some null) = refl
reflected-is_error_code (some (boolean b)) = refl
reflected-is_error_code (some (int n)) = refl
reflected-is_error_code (some (negative_int n)) = refl
reflected-is_error_code (some (float negative n k)) = refl
reflected-is_error_code (some infinite) = refl
reflected-is_error_code (some (broken_str n)) = refl
reflected-is_error_code (some (arr vs)) = refl
reflected-is_error_code (some (obj ms)) = refl

error_code-is_error_code : (v : Option Value) → is_error_code (error_code v) ≡ true
unfolding error_code is_error_code
error_code-is_error_code (some (obj ms)) = of_error (field "error" (members ms))
  where
    of_error :
        (o : Option Value)
        → is_error_code (elim o [
          | some (obj error) ↦ reflected (field "code" (members error))
          | _ ↦ "http_error"
        ])
          ≡ true
    of_error (some (obj error)) = reflected-is_error_code (field "code" (members error))
    of_error _ = refl
error_code-is_error_code _ = refl

retry_after_of-status :
    (status : ℕ) (values : List String)
    → (retry_after_of status values ≡ none) ⊎ (some status ≡ some 429)
unfolding retry_after_of
retry_after_of-status status [] = inl refl
retry_after_of-status status (v ∷ []) = elim (Bool-cases (status == 429)) [
  | inl full ↦ inr (ground (arith, full))
  | inr other ↦ inl (ground (arith, other))
]
retry_after_of-status status (v ∷ w ∷ vs) = inl refl

module _ (p : Payload) where
  reflect-IsReflection : (r : Response) (v : Option Value) → IsReflection p (some r) (reflect r v)
  unfolding reflect body_of is_error_code
  reflect-IsReflection r v =
      if_ind (IsReflection p (some r)) (not (between 200 299 r.status))
        (λ refused. (error_code-is_error_code v, retry_after_of-status r.status r.retry_after))
        (λ fine. taken v (ground (arith, fine)))
    where
      taken :
          (v : Option Value)
          → between 200 299 r.status ≡ true
          → IsReflection p (some r) (body_of r.status v)
      taken (some (obj ms)) fine = fine
      taken _ fine = (refl, inl refl)

  decode-IsReflection :
      (r : Response) (d : Decoded)
      → is_json r.content_type ≡ true
      → r.decoded ≡ d
      → IsReflection p (some r) (decode r d)
  unfolding decode
  decode-IsReflection r (json_value v) json is_d = reflect-IsReflection r (some v)
  decode-IsReflection r not_json json is_d = reflect-IsReflection r none
  decode-IsReflection r too_deep json is_d = inr (json, is_d)

  answered-IsReflection : (response : Option Response) → IsReflection p response (answered response)
  unfolding answered is_error_code
  answered-IsReflection none = (refl, inl refl)
  answered-IsReflection (some r) =
      if_ind (IsReflection p (some r)) (ltb 262144 r.raw) (λ large. (refl, inl refl))
        (λ _.
          if_ind (IsReflection p (some r)) (is_json r.content_type)
            (λ json. decode-IsReflection r r.decoded json refl) (λ _. reflect-IsReflection r none))

-- A request gives a body only for an answer with a status from 200 to 299, or an error whose code is 1 to 40
-- lower-case letters and underscores, with a Retry-After only for the status 429; another exception passes only
-- where its body cannot be encoded, or the answer says it is JSON and is nested deeper than Python reads.
pub request-IsReflection :
    (p : Payload) (response : Option Response) → IsReflection p response (request p response)
unfolding request is_error_code
request-IsReflection no_payload response = answered-IsReflection no_payload response
request-IsReflection unencodable response = inl refl
request-IsReflection (bytes n) response =
    if_ind (IsReflection (bytes n) response) (ltb 262144 n) (λ large. (refl, inl refl))
      (λ small. answered-IsReflection (bytes n) response)
