-- ===== src/Mappers.antt =====
-- frontend/js/op-boot.js, mapServers to mapEolTotals: what the pages read, made from what the API
-- answers. A field of an answer that is missing or null is `none`, and a list of an answer that is
-- missing is empty.
pub mod Patching
pub mod Health
pub mod Tones
pub mod Summaries
pub mod Order
pub mod Tests
use operations_api.Common.Integers.{ℤ}
use operations_api.Common.{
  ℕ, Bool, true, false, Option, none, some, List, [], ◌∷◌, Text, text, text_eq, if◌then◌else◌, map,
  or_text, get_or, ltb,
}
use operations_api.Router.{Browser}
use operations_api.Tables.{Sign, compare_by, sort}

-- `s || d` of a text that may be missing, and `s || null`.
abbrev pub text_or : Option Text → Text → Text
text_or s d = or_text (get_or s []) d

abbrev pub or_null : Option Text → Option Text
or_null none = none
or_null (some []) = none
or_null (some (c ∷ s)) = some (c ∷ s)

-- `t ? f(t) : '—'`
abbrev pub dated_or_dash : (Text → Text) → Option Text → Text
dated_or_dash f t = elim (or_null t) [ none ↦ text "—" | some s ↦ f s ]

abbrev pub count : Option ℕ → ℕ
count n = get_or n 0

pub record ServerItem : Type 0 where
  pub server_id : ℕ
  pub server_name : Text
  pub fqdn : Option Text
  pub ip_address : Option Text
  pub environment : Option Text
  pub application_name : Option Text
  pub service : Option Text
  pub func : Option Text
  pub patch_group : Option Text
  pub business_unit : Option Text
  pub is_active : Bool
  pub last_seen : Option Text

pub record ServerRow : Type 0 where
  pub id : ℕ
  pub name : Text
  pub fqdn : Option Text
  pub ip : Option Text
  pub env : Text
  pub app : Text
  pub service : Text
  pub func : Text
  pub pg : Text
  pub bu : Text
  pub active : Bool
  pub last_seen : Option Text

unfoldable pub map_servers : List ServerItem → List ServerRow
map_servers items =
    map
      (λ (s : ServerItem). record {
        id = s.server_id;
        name = s.server_name;
        fqdn = or_null s.fqdn;
        ip = or_null s.ip_address;
        env = text_or s.environment (text "Untagged");
        app = text_or s.application_name [];
        service = text_or s.service [];
        func = text_or s.func [];
        pg = text_or s.patch_group (text "NO PATCH GROUP FOUND");
        bu = text_or s.business_unit (text "Unknown");
        active = s.is_active;
        last_seen = or_null s.last_seen;
      })
      items

-- An entry of `environmentCounts` or `businessUnitCounts`.
pub record Share : Type 0 where
  pub name : Text
  pub active : Option ℕ
  pub total : Option ℕ

pub record Portion : Type 0 where
  pub name : Text
  pub count : ℕ

-- `mapEnvBreakdown` and `mapBuBreakdown`, by falling count.
unfoldable pub map_breakdown : List Share → List Portion
map_breakdown shares =
    sort (compare_by (λ (a b : Portion). ltb a.count b.count) false) (
      map (λ (s : Share). record { name = s.name; count = get_or s.active (count s.total) }) shares)

pub record UnreachableItem : Type 0 where
  pub server_name : Option Text
  pub environment : Option Text
  pub last_seen : Option Text

pub record UnreachableRow : Type 0 where
  pub name : Text
  pub env : Text
  pub last_seen : Text
  pub duration : Text

unfoldable pub map_unreachable : (Text → Text) → List UnreachableItem → List UnreachableRow
map_unreachable show_time items =
    map
      (λ (u : UnreachableItem). record {
        name = text_or u.server_name (text "—");
        env = text_or u.environment (text "Untagged");
        last_seen = dated_or_dash show_time u.last_seen;
        duration = [];
      })
      items

pub record UnmatchedItem : Type 0 where
  pub server_name_raw : Option Text
  pub source_system : Option Text
  pub occurrence_count : Option ℕ
  pub first_seen_at : Option Text
  pub closest_match : Option Text

pub record UnmatchedRow : Type 0 where
  pub raw : Text
  pub source : Text
  pub times : ℕ
  pub first : Text
  pub closest : Option Text

unfoldable pub map_unmatched : (Text → Text) → List UnmatchedItem → List UnmatchedRow
map_unmatched show_date items =
    map
      (λ (u : UnmatchedItem). record {
        raw = text_or u.server_name_raw (text "—");
        source = text_or u.source_system (text "—");
        times = count u.occurrence_count;
        first = dated_or_dash show_date u.first_seen_at;
        closest = or_null u.closest_match;
      })
      items

pub record CertItem : Type 0 where
  pub alert_level : Option Text
  pub is_expired : Bool
  pub subject_cn : Option Text
  pub service_name : Option Text
  pub server_name : Option Text
  pub valid_to : Option Text
  pub days_until_expiry : Option ℤ
  pub business_unit : Option Text

pub data Level : Type 0 where
  expired crit warn ok : Level

pub record CertRow : Type 0 where
  pub name : Text
  pub server : Text
  pub service : Text
  pub expires : Text
  pub days : Option ℤ
  pub level : Level
  pub bu : Text

-- The level of a certificate; `upper` is the engine's `toUpperCase`.
unfoldable pub cert_level : (Text → Text) → CertItem → Level
cert_level upper c =
    let raw = upper (text_or c.alert_level []) in
    if c.is_expired
    then expired
    else if text_eq raw (text "CRITICAL")
    then crit
    else if text_eq raw (text "WARNING")
    then warn
    else ok

unfoldable pub map_certs : (Text → Text) → (Text → Text) → List CertItem → List CertRow
map_certs upper show_date items =
    map
      (λ (c : CertItem). record {
        name = text_or c.subject_cn (text_or c.service_name (text "—"));
        server = text_or c.server_name [];
        service = text_or c.service_name [];
        expires = dated_or_dash show_date c.valid_to;
        days = c.days_until_expiry;
        level = cert_level upper c;
        bu = text_or c.business_unit (text "Unknown");
      })
      items

pub record CertSummary : Type 0 where
  pub expired_count : Option ℕ
  pub critical_count : Option ℕ
  pub warning_count : Option ℕ
  pub ok_count : Option ℕ

pub record CertCounts : Type 0 where
  pub expired : ℕ
  pub crit : ℕ
  pub warn : ℕ
  pub ok : ℕ
  pub within_7d : ℕ
  pub within_30d : ℕ
  pub within_90d : ℕ
  pub healthy : ℕ

unfoldable pub map_cert_counts : Option CertSummary → CertCounts
map_cert_counts none = record {
  expired = 0;
  crit = 0;
  warn = 0;
  ok = 0;
  within_7d = 0;
  within_30d = 0;
  within_90d = 0;
  healthy = 0;
}
map_cert_counts (some s) = record {
  expired = count s.expired_count;
  crit = count s.critical_count;
  warn = count s.warning_count;
  ok = count s.ok_count;
  within_7d = count s.critical_count;
  within_30d = count s.warning_count;
  within_90d = 0;
  healthy = count s.ok_count;
}

pub record EolItem : Type 0 where
  pub product : Text
  pub version : Text
  pub alert_level : Option Text
  pub end_of_life : Option Text
  pub end_of_extended_support : Option Text
  pub affected_assets : Option ℕ

pub record EolRow : Type 0 where
  pub product : Text
  pub version : Text
  pub status : Text
  pub eol : Option Text
  pub ext : Option Text
  pub servers : ℕ
  pub hosts : List Text

abbrev dated_or_null : (Text → Text) → Option Text → Option Text
dated_or_null f t = elim (or_null t) [ none ↦ none | some s ↦ some (f s) ]

unfoldable pub map_eol_products : Browser → (Text → Text) → List EolItem → List EolRow
map_eol_products B show_date items =
    map
      (λ (e : EolItem). record {
        product = e.product;
        version = e.version;
        status = B.lower (text_or e.alert_level (text "supported"));
        eol = dated_or_null show_date e.end_of_life;
        ext = dated_or_null show_date e.end_of_extended_support;
        servers = count e.affected_assets;
        hosts = [];
      })
      items
