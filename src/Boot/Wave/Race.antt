-- ===== src/Boot/Wave/Race.antt =====
-- The two answers about the servers, of which either may land first.
use operations_api.Common.{
  All, ◌∙◌, ◌≡◌, refl, Bool, true, false, Option, some, List, [], ◌∷◌, ◌++◌, Text, arith, ℕ,
}
use operations_api.Mappers.{ServerItem, Portion, map_servers}
use operations_api.Boot.Servers.{Inventory}
use operations_api.Boot.World.{Forms, World, Landing, inventory, env_counts, max_count}
use operations_api.Boot.Wave.{is_selected, land, land_all, run_fetches}

module _ {F U : Type 0} where
  abbrev pub is_inventory : Landing F U → Bool
  is_inventory (inventory _) = true
  is_inventory _ = false

-- What the page shows of the number of servers and of their environments.
abbrev pub shown_totals : {F U : Type 0} → World F U → Option ℕ × List Portion × ℕ
shown_totals w = (w.servers_data.srv_total, w.servers_data.srv_env, w.servers_data.srv_env_max)

module _ {F U : Type 0} (K : Forms) (zero_size : F) (bu : Text)
    (selected : is_selected bu ≡ true) where
  others-keep :
      (l : Landing F U) (w : World F U)
      → is_inventory l ≡ false
      → shown_totals (land K zero_size bu l w) ≡ shown_totals w
  unfolding land
  others-keep l w h = ground (arith, selected)

  landed-keep :
      (ls : List (Landing F U)) (w : World F U)
      → All (λ l. is_inventory l ≡ false) ls
      → shown_totals (land_all K zero_size bu ls w) ≡ shown_totals w
  unfolding land_all
  landed-keep [] w h = refl
  landed-keep (l ∷ ls) w (h, hs) = landed-keep ls (land K zero_size bu l w) hs ∙ others-keep l w h

  land-inventory :
      (r : Inventory ServerItem) (w : World F U)
      → shown_totals (land K zero_size bu (inventory (some r)) w)
        ≡ (r.total, env_counts (map_servers r.items), max_count (env_counts (map_servers r.items)))
  unfolding land
  land-inventory r w = refl

  after-inventory :
      (before after : List (Landing F U)) (r : Inventory ServerItem) (w : World F U)
      → All (λ l. is_inventory l ≡ false) after
      → shown_totals (land_all K zero_size bu (before ++ inventory (some r) ∷ after) w)
        ≡ (r.total, env_counts (map_servers r.items), max_count (env_counts (map_servers r.items)))
  unfolding land_all
  after-inventory [] after r w h = landed-keep after _ h ∙ land-inventory r w
  after-inventory (l ∷ before) after r w h =
      after-inventory before after r (land K zero_size bu l w) h

  -- With a business unit selected, the totals and the environments that the page shows at the end of a
  -- wave are the inventory's, whether the summary of all servers lands before it or after it.
  pub run_fetches-inventory :
      (before after : List (Landing F U)) (r : Inventory ServerItem) (w : World F U)
      → All (λ l. is_inventory l ≡ false) after
      → shown_totals (run_fetches K zero_size bu (before ++ inventory (some r) ∷ after) w)
        ≡ (r.total, env_counts (map_servers r.items), max_count (env_counts (map_servers r.items)))
  unfolding run_fetches
  run_fetches-inventory before after r w h = after-inventory before after r _ h
