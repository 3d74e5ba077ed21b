-- ===== src/Auditing/Health/Exact.antt =====
-- What the counts above the auditing page say of the applications and the packets.
use operations_api.Common.{
  ℕ, ==_iff, ◌==◌, any, ◌∙◌, refl, ◌+◌, ◌≤◌, ◌≡◌, arith, Bool, true, false, not, ◌&&◌, ◌||◌, List,
  [], ◌∷◌, filter, length, length-filter-le, if◌then◌else◌,
}
use operations_api.Auditing.{Campaign, Packet, AuditingData}
use operations_api.Auditing.Status.{
  Almanac, is_submitted, is_set, Status, in_flight, never, due_soon,
}
use operations_api.Auditing.Health.{
  live_apps, is_overdue, is_on_time, not_ready, status_of, open_packets, Tally, tally_campaigns,
  CritCounts, is_active, get_auditing_crit_counts,
}

-- How many elements pass a test.
abbrev pub count_of {ℓ} : {A : Type ℓ} → (A → Bool) → List A → ℕ
count_of p xs = length (filter p xs)

-- The statuses that neither call for action nor count as healthy.
abbrev pub is_underway : Status → Bool
is_underway in_flight = true
is_underway never = true
is_underway due_soon = true
is_underway _ = false

count_of-either :
    {A : Type 0} (p q : A → Bool) (xs : List A)
    → count_of p xs + count_of q xs ≡ count_of (λ x. p x || q x) xs + count_of (λ x. p x && q x) xs
count_of-either p q [] = omega arith
count_of-either p q (x ∷ xs) = ground (arith, count_of-either p q xs)

-- Each application is healthy, or calls for action, or is underway and ready.
module _ {A : Type 0} (status : A → Status) (unready : A → Bool) where
  abbrev is_healthy : A → Bool
  is_healthy x = is_on_time (status x) && not (unready x)

  abbrev needs_action : A → Bool
  needs_action x = is_overdue (status x) || unready x

  abbrev is_waiting : A → Bool
  is_waiting x = is_underway (status x) && not (unready x)

  one_kind :
      (s : Status) (b : Bool)
      → (if is_on_time s && not b then 1 else 0)
          + (if is_overdue s || b then 1 else 0)
          + (if is_underway s && not b then 1 else 0)
        ≡ 1
  one_kind s b = ground arith

  parted :
      (xs : List A)
      → length xs ≡ count_of is_healthy xs + count_of needs_action xs + count_of is_waiting xs
  parted [] = omega arith
  parted (x ∷ xs) = ground (arith, parted xs, one_kind (status x) (unready x))

tally_campaigns_bounds :
    (K : Almanac) (d : AuditingData) (cs : List Campaign) (t : Tally)
    → t.reminders_due ≤ t.pending_packets
    → (tally_campaigns K d cs t).reminders_due ≤ (tally_campaigns K d cs t).pending_packets
unfolding tally_campaigns
tally_campaigns_bounds K d [] t h = h
tally_campaigns_bounds K d (c ∷ cs) t h =
    let unsent = λ (p : Packet). not (is_set p.reminder_sent_at) in
    tally_campaigns_bounds K d cs _ (ground (arith, length-filter-le unsent (open_packets d c)))

-- The campaign of a packet is among some.
abbrev pub is_among : List Campaign → Packet → Bool
is_among cs p = any (λ (c : Campaign). p.campaign_id == c.campaign_id) cs

abbrev pub HasDistinctCampaigns : List Campaign → Type 0
HasDistinctCampaigns [] = Unit
HasDistinctCampaigns (c ∷ cs) =
    (any (λ (e : Campaign). e.campaign_id == c.campaign_id) cs ≡ false) × HasDistinctCampaigns cs

abbrev is_open : List Campaign → Packet → Bool
is_open cs p = is_among cs p && not (is_submitted p)

not_among_both :
    (c : Campaign) (cs : List Campaign) (p : Packet)
    → any (λ (e : Campaign). e.campaign_id == c.campaign_id) cs ≡ false
    → (p.campaign_id == c.campaign_id) ≡ true
    → is_among cs p ≡ false
not_among_both c [] p h e = refl
not_among_both c (x ∷ cs) p h e = ground (
  arith,
  not_among_both c cs p,
  ==_iff p.campaign_id c.campaign_id,
  ==_iff p.campaign_id x.campaign_id,
  ==_iff x.campaign_id c.campaign_id,
)

open_packets-cons :
    (c : Campaign) (cs : List Campaign) (ps : List Packet)
    → any (λ (e : Campaign). e.campaign_id == c.campaign_id) cs ≡ false
    → count_of (is_open (c ∷ cs)) ps
      ≡ count_of (λ (p : Packet). p.campaign_id == c.campaign_id && not (is_submitted p)) ps
        + count_of (is_open cs) ps
open_packets-cons c cs [] h = omega arith
open_packets-cons c cs (p ∷ ps) h =
    ground (arith, open_packets-cons c cs ps h, not_among_both c cs p h)

tally_campaigns-pending :
    (K : Almanac) (d : AuditingData) (cs : List Campaign) (t : Tally)
    → HasDistinctCampaigns cs
    → (tally_campaigns K d cs t).pending_packets
      ≡ t.pending_packets + count_of (is_open cs) d.packets
unfolding tally_campaigns open_packets
tally_campaigns-pending K d [] t h = omega (arith, nothing d.packets)
  where
    nothing : (ps : List Packet) → count_of (is_open []) ps ≡ 0
    nothing [] = refl
    nothing (p ∷ ps) = nothing ps
tally_campaigns-pending K d (c ∷ cs) t (h, hs) =
    tally_campaigns-pending K d cs _ hs ∙ omega (arith, open_packets-cons c cs d.packets h)

-- The counts, said without the loops.
pub record IsExact (K : Almanac) (d : AuditingData) (c : CritCounts) : Type 0 where
  pub parts :
      c.total
      ≡ c.healthy
        + count_of (needs_action (status_of K d) (not_ready d)) (live_apps d)
        + count_of (is_waiting (status_of K d) (not_ready d)) (live_apps d)
  pub action :
      c.action_required
      ≡ count_of (needs_action (status_of K d) (not_ready d)) (live_apps d)
        + count_of (λ a. is_overdue (status_of K d a) && not_ready d a) (live_apps d)
  pub pending : c.pending_packets ≡ count_of (is_open (filter is_active d.campaigns)) d.packets
  pub reminders : c.reminders_due ≤ c.pending_packets

abbrev no_tally : Tally
no_tally = record { reminders_due = 0; pending_packets = 0 }

-- Where the active campaigns have different ids: each live application counts as healthy, or calls
-- for action, or is underway and ready to launch; one that is both overdue and not ready counts twice
-- under "action required"; the pending packets are those of active campaigns that nobody has
-- submitted, and the reminders due are no more than these.
pub get_auditing_crit_counts-IsExact :
    (K : Almanac) (d : AuditingData)
    → HasDistinctCampaigns (filter is_active d.campaigns)
    → IsExact K d (get_auditing_crit_counts K d)
unfolding get_auditing_crit_counts
get_auditing_crit_counts-IsExact K d h =
    let active = filter is_active d.campaigns in
    record {
      parts = parted (status_of K d) (not_ready d) (live_apps d);
      action = count_of-either (λ a. is_overdue (status_of K d a)) (not_ready d) (live_apps d);
      pending = omega (arith, tally_campaigns-pending K d active no_tally h);
      reminders = tally_campaigns_bounds K d active no_tally (omega arith);
    }
