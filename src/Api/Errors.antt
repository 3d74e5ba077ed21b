-- ===== src/Api/Errors.antt =====
-- The list of API errors: what each answer adds to it.
use operations_api.Common.{
  if_intro, leb, ℕ, ◌+◌, ◌≤◌, ◌≡◌, refl, ap, ◌⊎◌, inl, inr, true, false, Option, List, [], ◌∷◌,
  ◌++◌, arith, Text, text, any, filter, length, All, starts_with, before, filter-append,
  length-append, Bool-cases, decimal, ◌==◌, if◌then◌else◌,
}
use operations_api.Api.{
  Store, json, unreadable, Reply, responded, broken, Fault, abort_error, other_error, is_success,
  record_once, add_api_error, record_http_error, record_transport_error, path_error, api, api_write,
  auth_message, permit_message, rate_message, server_message, timeout_message, network_message,
}

-- How many errors begin with a prefix.
abbrev pub count : Text → List Text → ℕ
count p errs = length (filter (λ e. starts_with e p) errs)

-- Every path that the console requests: a slash and a lower-case letter.
abbrev pub IsApiPath : Text → Type 0
IsApiPath path = (d : ℕ) × (rest : Text) × (path ≡ b'/' ∷ d ∷ rest) × (97 ≤ d) × (d ≤ 122)

pub path_error-head :
    (d : ℕ) (rest : Text) (status : ℕ)
    → 97 ≤ d
    → d ≤ 122
    → (tail : Text) × (path_error (b'/' ∷ d ∷ rest) status ≡ d ∷ tail)
unfolding path_error before
path_error-head d rest status h k =
    (before b'?' rest ++ (text " (" ++ (decimal status ++ text ")")), ground arith)

-- Such an error begins with none of the prefixes that are told apart, which are capitalised.
pub path_error-starts_with :
    (path : Text) (status c : ℕ) (p : Text)
    → IsApiPath path
    → c ≤ 90
    → starts_with (path_error path status) (c ∷ p) ≡ false
unfolding starts_with
path_error-starts_with path status c p (d, rest, e, h, k) lt =
    let (tail, eq) = path_error-head d rest status h k in rw (e, eq) (ground arith)

count-snoc :
    (p v : Text) (errs : List Text)
    → count p (errs ++ v ∷ []) ≡ (if starts_with v p then count p errs + 1 else count p errs)
count-snoc p v errs =
    rw
      (
        filter-append (λ e. starts_with e p) errs (v ∷ []),
        length-append (filter (λ e. starts_with e p) errs),
      )
      (ground arith)

count-eq-zero :
    (p : Text) (errs : List Text) → any (λ e. starts_with e p) errs ≡ false → count p errs ≡ 0
count-eq-zero p [] h = refl
count-eq-zero p (e ∷ errs) h = ground (arith, count-eq-zero p errs)

-- Recording a message once: its own prefix stays at one, another prefix is not counted.
count-record_once :
    (p q m : Text) (s : Store)
    → starts_with m q ≡ true
    → (p ≡ q) ⊎ (starts_with m p ≡ false)
    → count p s.api_errors ≤ 1
    → count p (record_once q m s).api_errors ≤ 1
unfolding record_once add_api_error
count-record_once p q m s own (inl e) h = rw e (
    ground (
      arith,
      count-eq-zero q s.api_errors,
      count-snoc q m s.api_errors,
      ap (λ (r : Text). count r s.api_errors) e,
    ))
count-record_once p q m s own (inr e) h = ground (arith, count-snoc p m s.api_errors)

-- The six prefixes by which the code tells its errors apart.
abbrev pub prefixes : List Text
prefixes =
    text "Authentication"
    ∷ text "Not permitted"
    ∷ text "Rate"
    ∷ text "Server"
    ∷ text "Request"
    ∷ text "Network"
    ∷ []

-- None of them begins two errors.
abbrev pub IsTidy : Store → Type 0
IsTidy s = All (λ p. count p s.api_errors ≤ 1) prefixes

abbrev Fits : Text → Text → Text → Type 0
Fits q m p = (p ≡ q) ⊎ (starts_with m p ≡ false)

record_once-All :
    (q m : Text) (s : Store) (ps : List Text)
    → starts_with m q ≡ true
    → All (Fits q m) ps
    → All (λ p. count p s.api_errors ≤ 1) ps
    → All (λ p. count p (record_once q m s).api_errors ≤ 1) ps
record_once-All q m s [] own fits h = tt
record_once-All q m s (p ∷ ps) own (fit, fits) (h, hs) =
    (count-record_once p q m s own fit h, record_once-All q m s ps own fits hs)

add_api_error-All :
    (v : Text) (s : Store) (ps : List Text)
    → All (λ p. starts_with v p ≡ false) ps
    → All (λ p. count p s.api_errors ≤ 1) ps
    → All (λ p. count p (add_api_error v s).api_errors ≤ 1) ps
unfolding add_api_error
add_api_error-All v s [] f h = tt
add_api_error-All v s (p ∷ ps) (f, fs) (h, hs) =
    (ground (arith, count-snoc p v s.api_errors), add_api_error-All v s ps fs hs)

path_error-plain :
    (path : Text) (status : ℕ)
    → IsApiPath path
    → All (λ p. starts_with (path_error path status) p ≡ false) prefixes
path_error-plain path status valid = (
  path_error-starts_with path status 65 _ valid (omega arith),
  (
    path_error-starts_with path status 78 _ valid (omega arith),
    (
      path_error-starts_with path status 82 _ valid (omega arith),
      (
        path_error-starts_with path status 83 _ valid (omega arith),
        (
          path_error-starts_with path status 82 _ valid (omega arith),
          (path_error-starts_with path status 78 _ valid (omega arith), tt),
        ),
      ),
    ),
  ),
)

record_http_error-IsTidy :
    (path : Text) (status : ℕ) (s : Store)
    → IsApiPath path
    → IsTidy s
    → IsTidy (record_http_error path status s)
unfolding record_http_error starts_with
record_http_error-IsTidy path status s valid h =
    if_intro IsTidy (status == 401)
      (record_once-All (text "Authentication") auth_message s prefixes refl
        (inl refl, (inr refl, (inr refl, (inr refl, (inr refl, (inr refl, tt)))))) h)
      (if_intro IsTidy (status == 403)
        (record_once-All (text "Not permitted") permit_message s prefixes refl
          (inr refl, (inl refl, (inr refl, (inr refl, (inr refl, (inr refl, tt)))))) h)
        (if_intro IsTidy (status == 429)
          (record_once-All (text "Rate") rate_message s prefixes refl
            (inr refl, (inr refl, (inl refl, (inr refl, (inr refl, (inr refl, tt)))))) h)
          (if_intro IsTidy (leb 500 status)
            (record_once-All (text "Server") server_message s prefixes refl
              (inr refl, (inr refl, (inr refl, (inl refl, (inr refl, (inr refl, tt)))))) h)
            (add_api_error-All (path_error path status) s prefixes
              (path_error-plain path status valid) h))))

record_transport_error-IsTidy :
    (fault : Fault) (s : Store) → IsTidy s → IsTidy (record_transport_error fault s).0
unfolding record_transport_error starts_with
record_transport_error-IsTidy abort_error s h =
    record_once-All (text "Request") timeout_message s prefixes refl
      (inr refl, (inr refl, (inr refl, (inr refl, (inl refl, (inr refl, tt)))))) h
record_transport_error-IsTidy other_error s h =
    record_once-All (text "Network") network_message s prefixes refl
      (inr refl, (inr refl, (inr refl, (inr refl, (inr refl, (inl refl, tt)))))) h

module _ {V : Type 0} where
  api-IsTidy :
      (path : Text) (reply : Reply V) (s : Store)
      → IsApiPath path
      → IsTidy s
      → IsTidy (api path reply s).0
  unfolding api
  api-IsTidy path (responded status (json v) _) s valid h = elim (Bool-cases (is_success status)) [
    | inl e ↦ rw e h
    | inr e ↦ rw e (record_http_error-IsTidy path status s valid h)
  ]
  api-IsTidy path (responded status (unreadable fault) _) s valid h =
      elim (Bool-cases (is_success status)) [
        | inl e ↦ rw e (record_transport_error-IsTidy fault s h)
        | inr e ↦ rw e (record_http_error-IsTidy path status s valid h)
      ]
  api-IsTidy path (broken fault) s valid h = record_transport_error-IsTidy fault s h

  api_write-IsTidy :
      (error_field : Text → Option Text) (path : Text) (reply : Reply V) (s : Store)
      → IsApiPath path
      → IsTidy s
      → IsTidy (api_write error_field path reply s).0
  unfolding api_write
  api_write-IsTidy error_field path (responded status body _) s valid h =
      elim (Bool-cases (is_success status)) [
        | inl e ↦ rw e h
        | inr e ↦ rw e (record_http_error-IsTidy path status s valid h)
      ]
  api_write-IsTidy error_field path (broken fault) s valid h =
      record_transport_error-IsTidy fault s h

-- Any sequence of requests.
pub data Request (V : Type 0) : Type 0 where
  reads : Text → Reply V → Request V
  writes : Text → Reply V → Request V

abbrev pub path_of : {V : Type 0} → Request V → Text
path_of (reads path _) = path
path_of (writes path _) = path

module _ {V : Type 0} (error_field : Text → Option Text) where
  abbrev pub request : Request V → Store → Store
  request (reads path reply) s = (api path reply s).0
  request (writes path reply) s = (api_write error_field path reply s).0

  abbrev pub run_requests : List (Request V) → Store → Store
  run_requests [] s = s
  run_requests (r ∷ rs) s = run_requests rs (request r s)

  -- Whatever the answers to a sequence of requests to well-formed paths: if no distinguished
  -- prefix begins two recorded errors before it, none does after it.
  pub run_requests-IsTidy :
      (rs : List (Request V)) (s : Store)
      → All (λ r. IsApiPath (path_of r)) rs
      → IsTidy s
      → IsTidy (run_requests rs s)
  run_requests-IsTidy [] s valid h = h
  run_requests-IsTidy (reads path reply ∷ rs) s (v, vs) h =
      run_requests-IsTidy rs (api path reply s).0 vs (api-IsTidy path reply s v h)
  run_requests-IsTidy (writes path reply ∷ rs) s (v, vs) h =
      run_requests-IsTidy rs (api_write error_field path reply s).0 vs
        (api_write-IsTidy error_field path reply s v h)
