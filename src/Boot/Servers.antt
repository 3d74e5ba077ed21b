-- ===== src/Boot/Servers.antt =====
-- frontend/js/op-boot.js, fetchAllServers: the inventory, fetched page by page.
pub mod Complete
use operations_api.Common.{
  ℕ, zero, suc, ◌+◌, Bool, true, false, Option, none, some, List, [], ◌∷◌, ◌++◌, Text, text, leb,
  if◌then◌else◌, length, decimal, text_eq, is_empty, not, ◌&&◌, get_or,
}
use operations_api.Api.{Store, Reply, api}

-- `PAGE` and `MAX_PAGES`
abbrev pub page_size : ℕ
page_size = 1000

abbrev pub max_pages : ℕ
max_pages = 10

-- `(bu && bu !== '__all') ? '&businessUnit=' + encodeURIComponent(bu) : ''`
unfoldable pub bu_query : (Text → Text) → Text → Text
bu_query encode bu =
    if not (is_empty bu) && not (text_eq bu (text "__all"))
    then text "&businessUnit=" ++ encode bu
    else []

unfoldable pub page_path : Text → ℕ → Text
page_path bu_qs offset = text "/servers?limit=1000&offset=" ++ (decimal offset ++ bu_qs)

-- A page of the answer; `items` is `none` where it is no array.
pub record Answer (A : Type 0) : Type 0 where
  pub items : Option (List A)
  pub total_count : Option ℕ

-- `{ items: all, total }`
pub record Inventory (A : Type 0) : Type 0 where
  pub items : List A
  pub total : Option ℕ

-- What the calls left in the store, the paths that were fetched, and the result, `none` for `null`.
pub record Outcome (A : Type 0) : Type 0 where
  pub store : Store
  pub asked : List Text
  pub result : Option (Inventory A)

module _ {A : Type 0} where
  unfoldable pub asking : Text → Outcome A → Outcome A
  asking path o = record o { asked = path ∷ o.asked }

  -- The rounds that are left of the `for` loop, with its variables `offset`, `all` and `total`;
  -- `answer` is what the service replies to the page at an offset.
  unfoldable pub fetch_pages :
      Text → (ℕ → Reply (Answer A)) → ℕ → ℕ → List A → Option ℕ → Store → Outcome A
  unfolding asking
  fetch_pages bu_qs answer zero offset all total s = record {
    store = s;
    asked = [];
    result = some (record { items = all; total = total });
  }
  fetch_pages bu_qs answer (suc n) offset all total s =
      let path = page_path bu_qs offset in
      let (s', r) = api path (answer offset) s in
      let null : Outcome A = record { store = s'; asked = path ∷ []; result = none } in
      elim r [
        | none ↦ null
        | some page ↦ elim page.items [
          | none ↦ null
          | some items ↦
              let all' = all ++ items in
              let total' = get_or total (get_or page.total_count (length all')) in
              elim (leb total' (length all')) [
                | true ↦ record {
                  store = s';
                  asked = path ∷ [];
                  result = some (record { items = all'; total = some total' });
                }
                | false ↦
                    asking path
                      (fetch_pages bu_qs answer n (offset + page_size) all' (some total') s')
              ]
        ]
      ]

  unfoldable pub fetch_all_servers :
      (Text → Text) → Text → (ℕ → Reply (Answer A)) → Store → Outcome A
  fetch_all_servers encode bu answer s =
      fetch_pages (bu_query encode bu) answer max_pages 0 [] none s
