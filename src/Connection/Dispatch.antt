-- ===== src/Connection/Dispatch.antt =====
-- `dispatch`, `decodeError` and `encodeError` of lspserver/src/Connection.cpp, and the messages of
-- `notify`, `call` and `reply`.
use nixd.Prelude.{
  Bool, true, false, Option, none, some, List, [], ◌∷◌, All, Bytes, codes, bytes_eq, if◌then◌else◌,
  ℤ, negsuc, ◌≡◌, refl, ap, ◌∙◌,
}
use nixd.Connection.Json.{JsonOps, is_ascii, lookup, get_string, get_integer, get_object}
use nixd.Rpc.Pending.{cast_int}

-- `LSPError`, and any other error by its message.
pub data RpcError : Type 0 where
  lsp_error : Bytes → ℤ → RpcError
  string_error : Bytes → RpcError

pub data Reply (V : Type 0) : Type 0 where
  value : V → Reply V
  error : RpcError → Reply V

-- What `dispatch` calls of its handler; `rejected` is where it returns false itself.
pub data Action (V : Type 0) : Type 0 where
  rejected : Action V
  on_reply : V → Reply V → Action V
  on_call : Bytes → V → V → Action V
  on_notify : Bytes → V → Action V

-- `ErrorCode::UnknownErrorCode`.
abbrev pub unknown_error_code : ℤ
unknown_error_code = negsuc 32000

module _ (j : JsonOps) where
  abbrev value_or : Option j.Value → j.Value
  value_or none = j.null
  value_or (some v) = v

  abbrev decode_code : Bytes → Option ℤ → RpcError
  decode_code message (some code) = lsp_error message (cast_int code)
  decode_code message none = string_error message

  abbrev message_or : Option Bytes → Bytes
  message_or none = codes "Unspecified error"
  message_or (some m) = m

  unfoldable pub decode_error : j.Object → RpcError
  decode_error o =
      decode_code (message_or (get_string j o (codes "message"))) (get_integer j o (codes "code"))

  abbrev reply_of : j.Object → j.Value → Option j.Object → Action j.Value
  reply_of o id (some err) = on_reply id (error (decode_error err))
  reply_of o id none = on_reply id (value (value_or (j.get o (codes "result"))))

  abbrev respond : j.Object → Option j.Value → Action j.Value
  respond o none = rejected
  respond o (some id) = reply_of o id (get_object j o (codes "error"))

  abbrev request : Bytes → j.Value → Option j.Value → Action j.Value
  request method params (some id) = on_call method params id
  request method params none = on_notify method params

  abbrev by_method : j.Object → Option Bytes → Action j.Value
  by_method o none = respond o (j.get o (codes "id"))
  by_method o (some method) =
      request method (value_or (j.get o (codes "params"))) (j.get o (codes "id"))

  abbrev is_version : Option Bytes → Bool
  is_version none = false
  is_version (some v) = bytes_eq v (codes "2.0")

  abbrev by_object : Option j.Object → Action j.Value
  by_object none = rejected
  by_object (some o) =
      if is_version (get_string j o (codes "jsonrpc"))
      then by_method o (get_string j o (codes "method"))
      else rejected

  unfoldable pub dispatch : j.Value → Action j.Value
  dispatch v = by_object (j.get_as_object v)

  unfoldable pub encode_error : RpcError → j.Object
  encode_error (lsp_error m code) =
      j.make ((codes "message", j.of_string m) ∷ (codes "code", j.of_integer code) ∷ [])
  encode_error (string_error m) =
      j.make
        ((codes "message", j.of_string m) ∷ (codes "code", j.of_integer unknown_error_code) ∷ [])

  abbrev version : Bytes × j.Value
  version = (codes "jsonrpc", j.of_string (codes "2.0"))

  unfoldable pub notify_message : Bytes → j.Value → j.Value
  notify_message method params =
      j.of_object
        (j.make (version ∷ (codes "method", j.of_string method) ∷ (codes "params", params) ∷ []))

  unfoldable pub call_message : Bytes → j.Value → j.Value → j.Value
  call_message method params id = j.of_object (
      j.make (
        version
        ∷ (codes "id", id)
        ∷ (codes "method", j.of_string method)
        ∷ (codes "params", params)
        ∷ []))

  unfoldable pub reply_message : j.Value → Reply j.Value → j.Value
  reply_message id (value v) =
      j.of_object (j.make (version ∷ (codes "id", id) ∷ (codes "result", v) ∷ []))
  reply_message id (error e) =
      j.of_object
        (j.make (version ∷ (codes "id", id) ∷ (codes "error", j.of_object (encode_error e)) ∷ []))

  -- An error that is sent: any other error gets the code for unknown errors.
  abbrev pub sent_error : RpcError → RpcError
  sent_error (lsp_error m code) = lsp_error m code
  sent_error (string_error m) = lsp_error m unknown_error_code

  abbrev pub sent : Reply j.Value → Reply j.Value
  sent (value v) = value v
  sent (error e) = error (sent_error e)

  abbrev pub IsUtf8 : Bytes → Type 0
  IsUtf8 s = j.is_utf8 s ≡ true

  -- The code of an error is an `int`, and its message valid UTF-8.
  abbrev pub IsSendable : Reply j.Value → Type 0
  IsSendable (error (lsp_error m code)) = IsUtf8 m × (cast_int code ≡ code)
  IsSendable (error (string_error m)) = IsUtf8 m
  IsSendable (value v) = Unit

  -- The fields of a message have ASCII names.
  get-make_ascii :
      (fields : List (Bytes × j.Value)) (k : Bytes)
      → All (λ f. is_ascii f.0 ≡ true) fields
      → j.get (j.make fields) k ≡ lookup k fields
  get-make_ascii fields k h = j.get-make fields k (ascii fields h)
    where
      ascii :
          (fs : List (Bytes × j.Value))
          → All (λ f. is_ascii f.0 ≡ true) fs
          → All (λ f. j.is_utf8 f.0 ≡ true) fs
      ascii [] h = tt
      ascii (f ∷ fs) (h, hs) = (j.is_utf8-is_ascii f.0 h, ascii fs hs)

  two_zero : j.get_as_string (j.of_string (codes "2.0")) ≡ some (codes "2.0")
  two_zero = j.as_string-of_string (codes "2.0") (j.is_utf8-is_ascii (codes "2.0") refl)

  dispatch-notify_message :
      (method : Bytes) (params : j.Value)
      → IsUtf8 method
      → dispatch (notify_message method params) ≡ on_notify method params
  unfolding dispatch notify_message
  dispatch-notify_message method params u =
      let fields = version ∷ (codes "method", j.of_string method) ∷ (codes "params", params) ∷ [] in
      let made : (k : Bytes) → j.get (j.make fields) k ≡ lookup k fields =
        λ k. get-make_ascii fields k (refl, (refl, (refl, tt))) in
      simp (j.as_object-of_object, made, two_zero, j.as_string-of_string method u)

  dispatch-call_message :
      (method : Bytes) (params id : j.Value)
      → IsUtf8 method
      → dispatch (call_message method params id) ≡ on_call method params id
  unfolding dispatch call_message
  dispatch-call_message method params id u =
      let fields =
        version
        ∷ (codes "id", id)
        ∷ (codes "method", j.of_string method)
        ∷ (codes "params", params)
        ∷ [] in
      let made : (k : Bytes) → j.get (j.make fields) k ≡ lookup k fields =
        λ k. get-make_ascii fields k (refl, (refl, (refl, (refl, tt)))) in
      simp (j.as_object-of_object, made, two_zero, j.as_string-of_string method u)

  -- An object with a message and a code is such an error.
  decode_error-fields :
      (o : j.Object) (m : Bytes) (code : ℤ)
      → j.get o (codes "message") ≡ some (j.of_string m)
      → j.get o (codes "code") ≡ some (j.of_integer code)
      → IsUtf8 m
      → decode_error o ≡ lsp_error m (cast_int code)
  unfolding decode_error
  decode_error-fields o m code h k u =
      simp (h, k, j.as_string-of_string m u, j.as_integer-of_integer)

  decode_error-encode_error :
      (e : RpcError) → IsSendable (error e) → decode_error (encode_error e) ≡ sent_error e
  unfolding encode_error cast_int
  decode_error-encode_error (lsp_error m code) (u, h) =
      let fields = (codes "message", j.of_string m) ∷ (codes "code", j.of_integer code) ∷ [] in
      let made = λ (k : Bytes). get-make_ascii fields k (refl, (refl, tt)) in
      decode_error-fields (j.make fields) m code (made (codes "message")) (made (codes "code")) u
      ∙ ap (λ (c : ℤ). lsp_error m c) h
  decode_error-encode_error (string_error m) u =
      let fields =
        (codes "message", j.of_string m) ∷ (codes "code", j.of_integer unknown_error_code) ∷ [] in
      let made = λ (k : Bytes). get-make_ascii fields k (refl, (refl, tt)) in
      decode_error-fields (j.make fields) m unknown_error_code (made (codes "message"))
        (made (codes "code")) u

  dispatch-reply_message :
      (id : j.Value) (r : Reply j.Value)
      → IsSendable r
      → dispatch (reply_message id r) ≡ on_reply id (sent r)
  unfolding dispatch reply_message
  dispatch-reply_message id (value v) h =
      let fields = version ∷ (codes "id", id) ∷ (codes "result", v) ∷ [] in
      let made : (k : Bytes) → j.get (j.make fields) k ≡ lookup k fields =
        λ k. get-make_ascii fields k (refl, (refl, (refl, tt))) in
      simp (j.as_object-of_object, made, two_zero)
  dispatch-reply_message id (error e) h =
      let fields =
        version ∷ (codes "id", id) ∷ (codes "error", j.of_object (encode_error e)) ∷ [] in
      let made : (k : Bytes) → j.get (j.make fields) k ≡ lookup k fields =
        λ k. get-make_ascii fields k (refl, (refl, (refl, tt))) in
      simp (j.as_object-of_object, made, two_zero)
        (ap (λ (x : RpcError). on_reply id (error x)) (decode_error-encode_error e h))

  -- What `notify`, `call` and `reply` send, `dispatch` hands to the handler: the method, the
  -- parameters, the ID and the result or the error, where the method and the message of the error are
  -- valid UTF-8 and the code of the error is an `int`. An error that had no code comes with the one
  -- for unknown errors.
  pub dispatch-messages :
      (method : Bytes) (params id : j.Value) (r : Reply j.Value)
      → IsUtf8 method
      → IsSendable r
      → (dispatch (notify_message method params) ≡ on_notify method params)
        × (dispatch (call_message method params id) ≡ on_call method params id)
        × (dispatch (reply_message id r) ≡ on_reply id (sent r))
  dispatch-messages method params id r u h = (
    dispatch-notify_message method params u,
    dispatch-call_message method params id u,
    dispatch-reply_message id r h,
  )
