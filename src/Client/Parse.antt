-- ===== src/Client/Parse.antt =====
-- `parse` of frontend/src/api/client.ts: the value or the `ApiError` that a call ends with.
use procovar_notify.Prelude.{
  String, ℕ, ◌≡◌, refl, true, false, Option, none, some, ◌==◌, eqb, if◌then◌else◌, arith,
  Bool-cases, inl, inr, ◌≢◌,
}
use procovar_notify.Client.{Reply, is_ok}

-- What the promise of a call gives: nothing (204), null, the data, an `ApiError` with its status,
-- code and message, or the error of the network.
pub data Result (D : Type 0) : Type 0 where
  no_content : Result D
  no_data : Result D
  value : D → Result D
  api_error : ℕ → String → String → Result D
  network_error : Result D

-- `??`
abbrev or_else : Option String → String → String
or_else none other = other
or_else (some t) other = t

-- `detail || code`
abbrev message : String → String → String
message code detail = if detail == "" then code else detail

-- `JSON.parse`, with `none` for text that is no JSON and for null, and the fields `code` and
-- `detail` of the data.
module _ {D : Type 0} (json : String → Option D) (code_of detail_of : D → Option String) where
  abbrev data_of : String → Option D
  data_of text = if text == "" then none else json text

  abbrev error_of : Reply → Option D → Result D
  error_of reply none = api_error reply.status "error" (message "error" reply.status_text)
  error_of reply (some d) =
      api_error reply.status (or_else (code_of d) "error")
        (message (or_else (code_of d) "error") (or_else (detail_of d) reply.status_text))

  abbrev value_of : Option D → Result D
  value_of none = no_data
  value_of (some d) = value d

  unfoldable pub parse : Reply → Result D
  parse reply =
      if eqb reply.status 204
      then no_content
      else if is_ok reply.status
      then value_of (data_of reply.text)
      else error_of reply (data_of reply.text)

  -- The result of a call that ended with this response, or with a failure of the network.
  unfoldable pub result_of : Option Reply → Result D
  unfolding parse
  result_of none = network_error
  result_of (some reply) = parse reply

  -- An `ApiError` has the response's status, which is no success; all else is a success.
  abbrev pub IsFaithful : Reply → Result D → Type 0
  IsFaithful reply (api_error status code text) =
      (status ≡ reply.status) × (is_ok reply.status ≡ false)
  IsFaithful reply network_error = is_ok reply.status ≢ is_ok reply.status
  IsFaithful reply _ = is_ok reply.status ≡ true

  -- `parse` throws an `ApiError` exactly if the status is no success, whatever the text of the
  -- response is, and the error has the response's status.
  pub parse-IsFaithful : (reply : Reply) → IsFaithful reply (parse reply)
  unfolding parse
  parse-IsFaithful reply = elim (Bool-cases (eqb reply.status 204)) [
    | inl e ↦ rw e (is_ok_204 reply.status e)
    | inr e ↦ elim (Bool-cases (is_ok reply.status)) [
      | inl ok ↦ rw (e, ok) (value_lem reply (data_of reply.text) ok)
      | inr bad ↦ rw (e, bad) (error_lem reply (data_of reply.text) bad)
    ]
  ]
    where
      is_ok_204 : (n : ℕ) → eqb n 204 ≡ true → is_ok n ≡ true
      is_ok_204 n e = ground (arith, e)

      value_lem :
          (reply : Reply) (d : Option D) → is_ok reply.status ≡ true → IsFaithful reply (value_of d)
      value_lem reply none ok = ok
      value_lem reply (some d) ok = ok

      error_lem :
          (reply : Reply) (d : Option D)
          → is_ok reply.status ≡ false
          → IsFaithful reply (error_of reply d)
      error_lem reply none bad = (refl, bad)
      error_lem reply (some d) bad = (refl, bad)
