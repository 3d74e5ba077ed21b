-- ===== src/Boot/Servers/Complete.antt =====
-- frontend/js/op-boot.js, fetchAllServers, against a service that pages a list.
use operations_api.Common.{
  ℕ, ◌+◌, ◌-◌, ◌*◌, ◌≡◌, min, max, some, List, [], Text, length, take, drop,
}
use operations_api.Api.{Store, Reply, responded, json}
use operations_api.Tables.{ceil_div}
use operations_api.Boot.Servers.{Answer, Outcome, page_size}

module _ {A : Type 0} where
  -- A service that answers of its rows those from the offset on, at most a page of them, and their
  -- number.
  abbrev pub serving : List A → ℕ → Reply (Answer A)
  serving rows offset =
      responded 200
        (json (
          some (record {
            items = some (take page_size (drop offset rows));
            total_count = some (length rows);
          })))
        []

  -- What the loop makes of the first `n` rows when it ends.
  abbrev ended : List A → ℕ → List Text → Store → Outcome A
  ended rows n asked s = record {
    store = s;
    asked = asked;
    result = some (record { items = take n rows; total = some (length rows) });
  }

  module _ (rows : List A) (bu_qs : Text) (s : Store) where
    -- The outcome of up to `n` rounds from an offset on.
    abbrev Ends : ℕ → ℕ → Outcome A → Type 0
    Ends n offset o =
        (o.store ≡ s)
        × (o.result
            ≡ some
                (record { items = take (offset + n * page_size) rows; total = some (length rows) }))
        × (length o.asked ≡ min n (max 1 (ceil_div (length rows - offset) page_size)))

  -- After at most `m` requests, one for each page that there is: the first `k` rows and the number
  -- of all rows, and nothing recorded.
  abbrev pub IsComplete : List A → Store → ℕ → ℕ → Outcome A → Type 0
  IsComplete rows s m k o =
      (o.store ≡ s)
      × (o.result ≡ some (record { items = take k rows; total = some (length rows) }))
      × (length o.asked ≡ min m (max 1 (ceil_div (length rows) page_size)))
