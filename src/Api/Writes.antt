-- ===== src/Api/Writes.antt =====
-- What a caller may conclude from the result of a read or of a write.
use operations_api.Common.{
  ℕ, ◌≤◌, ◌≡◌, ◌≢◌, refl, ◌⊎◌, inl, inr, ◌↔◌, Bool, true, false, Option, none, some, List, [], ◌∷◌,
  ◌++◌, arith, Text, is_empty, any, starts_with, Bool-cases, ◌==◌, leb, if_intro,
}
use operations_api.Api.{
  Store, json, unreadable, Reply, responded, broken, Fault, abort_error, other_error, is_success,
  record_once, add_api_error, record_http_error, record_transport_error, path_error, api, api_write,
  error_message,
}

abbrev pub HasError : Store → Type 0
HasError s = is_empty s.api_errors ≡ false

snoc-HasError : (v : Text) (errs : List Text) → is_empty (errs ++ v ∷ []) ≡ false
snoc-HasError v [] = refl
snoc-HasError v (e ∷ errs) = refl

add_api_error-HasError : (v : Text) (s : Store) → HasError (add_api_error v s)
unfolding add_api_error
add_api_error-HasError v s = snoc-HasError v s.api_errors

any-HasError : (p : Text → Bool) (errs : List Text) → any p errs ≡ true → is_empty errs ≡ false
any-HasError p [] h = cc
any-HasError p (e ∷ errs) h = refl

record_once-HasError : (q m : Text) (s : Store) → HasError (record_once q m s)
unfolding record_once
record_once-HasError q m s = elim (Bool-cases (any (λ e. starts_with e q) s.api_errors)) [
  | inl e ↦ rw e (any-HasError (λ e'. starts_with e' q) s.api_errors e)
  | inr e ↦ rw e (add_api_error-HasError m s)
]

pub record_http_error-HasError :
    (path : Text) (status : ℕ) (s : Store) → HasError (record_http_error path status s)
unfolding record_http_error
record_http_error-HasError path status s =
    if_intro HasError (status == 401) (record_once-HasError _ _ s) (
      if_intro HasError (status == 403) (record_once-HasError _ _ s) (
        if_intro HasError (status == 429) (record_once-HasError _ _ s) (
          if_intro HasError (leb 500 status) (record_once-HasError _ _ s)
            (add_api_error-HasError (path_error path status) s))))

pub record_transport_error-HasError :
    (fault : Fault) (s : Store) → HasError (record_transport_error fault s).0
unfolding record_transport_error
record_transport_error-HasError abort_error s = record_once-HasError _ _ s
record_transport_error-HasError other_error s = record_once-HasError _ _ s

error_message-nonempty :
    (error_field : Text → Option Text) (status : ℕ) (body : Text)
    → is_empty (error_message error_field status body) ≡ false
unfolding error_message
error_message-nonempty error_field status body = ground arith

transport_message-nonempty :
    (fault : Fault) (s : Store) → is_empty (record_transport_error fault s).1 ≡ false
unfolding record_transport_error
transport_message-nonempty abort_error s = refl
transport_message-nonempty other_error s = refl

module _ {V : Type 0} where
  -- A successful answer whose body is the JSON `null`.
  abbrev pub IsNull : Reply V → Type 0
  IsNull (responded status (json none) _) = is_success status ≡ true
  IsNull _ = ⊥

  -- A read that gives a value leaves the error list alone; one that gives `null` either read the
  -- JSON `null` or leaves an error behind.
  pub api_result :
      (path : Text) (reply : Reply V) (s : Store)
      → ((v : V) → (api path reply s).1 ≡ some v → (api path reply s).0 ≡ s)
        × ((api path reply s).1 ≡ none → IsNull reply ⊎ HasError (api path reply s).0)
  unfolding api
  api_result path (responded status (json none) t) s =
      ground (arith, record_http_error-HasError path status s)
  api_result path (responded status (json (some w)) t) s =
      ground (arith, record_http_error-HasError path status s)
  api_result path (responded status (unreadable fault) t) s =
      ground
        (arith, record_http_error-HasError path status s, record_transport_error-HasError fault s)
  api_result path (broken fault) s = (λ v e. cc, λ e. inr (record_transport_error-HasError fault s))

  abbrev pub IsBroken : Reply V → Type 0
  IsBroken (responded status _ _) = ⊥
  IsBroken (broken fault) = Unit

  abbrev pub HasStatus : Reply V → Type 0
  HasStatus (responded status _ _) = status ≢ 0
  HasStatus (broken fault) = Unit

  -- An answer with a status from 200 to 299.
  abbrev pub IsAccepted : Reply V → Type 0
  IsAccepted (responded status _ _) = (200 ≤ status) × (status ≤ 299)
  IsAccepted (broken fault) = ⊥

  -- A write reports success exactly if it was answered with a status from 200 to 299; it then left the
  -- error list alone. One that does not carries a message that is not empty and leaves an error behind.
  -- Its status is 0 exactly if there was no answer, given that no answer has the status 0.
  pub api_write_result :
      (error_field : Text → Option Text) (path : Text) (reply : Reply V) (s : Store)
      → HasStatus reply
      → let (s', r) = api_write error_field path reply s in
        ((r.ok ≡ true) ↔ IsAccepted reply)
        × (r.ok ≡ true → s' ≡ s)
        × (r.ok ≡ false → (is_empty r.error ≡ false) × HasError s')
        × ((r.status ≡ 0) ↔ IsBroken reply)
  unfolding api_write
  api_write_result error_field path (responded status body t) s h =
      ground (
        arith,
        record_http_error-HasError path status s,
        error_message-nonempty error_field status t,
      )
  api_write_result error_field path (broken fault) s h = (
    (λ e. cc, λ e. elim e [ ]),
    λ e. cc,
    λ e. (transport_message-nonempty fault s, record_transport_error-HasError fault s),
    (λ e. tt, λ u. refl),
  )
