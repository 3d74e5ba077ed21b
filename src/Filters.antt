-- ===== src/Filters.antt =====
-- frontend/js/op-pages.js: the rows that the server, certificate, end-of-life
-- and disk pages show.
pub mod Disks
pub mod Tests
use operations_api.Common.{
  any, ℕ, Bool, true, false, not, ◌&&◌, ◌||◌, Option, none, some, List, [], ◌∷◌, Text, text,
  text_eq, if◌then◌else◌, filter, is_empty, includes, trim, has, get_or, ltb, decimal,
}
use operations_api.Router.{Browser}
use operations_api.Tables.{Sign, neg, nil, pos, compare_by, sort}
use operations_api.Tables.Cells.{Numbers, Cell, cell_lt}
use operations_api.Mappers.{EolRow, CertRow, Level, expired, crit, warn, ok, ServerRow}
use operations_api.Mappers.Health.{DiskRow}

-- A filter that is set to all does nothing.
abbrev pub unless_all : {A : Type 0} → (A → Text) → Text → List A → List A
unless_all field v rows =
    if text_eq v (text "__all") then rows else filter (λ r. text_eq (field r) v) rows

-- `srvState`; the column is the field that `sort` names.
pub record ServerView (N : Numbers) : Type 0 where
  pub q : Text
  pub env : Text
  pub column : ServerRow → Cell N
  pub ascending : Bool

module _ (B : Browser) where
  open B use {lower}

  server_mentions : Text → ServerRow → Bool
  server_mentions q r =
      includes (lower r.name) q
      || includes (lower (get_or r.fqdn [])) q
      || includes (lower r.app) q
      || includes (lower r.pg) q
      || includes (lower r.env) q
      || includes (lower r.bu) q

  server_searched : Text → List ServerRow → List ServerRow
  server_searched q rows = if is_empty q then rows else filter (server_mentions q) rows

  -- `applyServerFilters`
  unfoldable pub apply_server_filters :
      (N : Numbers) → ServerView N → List ServerRow → List ServerRow
  unfolding server_searched server_mentions
  apply_server_filters N v rows =
      sort (compare_by (λ (a b : ServerRow). cell_lt N (v.column a) (v.column b)) v.ascending)
        (server_searched (lower (trim v.q)) (unless_all (λ (r : ServerRow). r.env) v.env rows))

-- `certState`
pub record CertView (N : Numbers) : Type 0 where
  pub q : Text
  pub level : Text
  pub column : CertRow → Cell N
  pub ascending : Bool

-- A level as the filter writes it.
abbrev pub level_text : Level → Text
level_text expired = text "expired"
level_text crit = text "crit"
level_text warn = text "warn"
level_text ok = text "ok"

module _ (B : Browser) where
  open B use {lower}

  cert_mentions : Text → CertRow → Bool
  cert_mentions q r =
      includes (lower r.name) q
      || includes (lower r.server) q
      || includes (lower r.service) q
      || includes (lower r.bu) q

  cert_searched : Text → List CertRow → List CertRow
  cert_searched q rows = if is_empty q then rows else filter (cert_mentions q) rows

  -- `applyCertFilters`
  unfoldable pub apply_cert_filters : (N : Numbers) → CertView N → List CertRow → List CertRow
  unfolding cert_searched cert_mentions
  apply_cert_filters N v rows =
      sort (compare_by (λ (a b : CertRow). cell_lt N (v.column a) (v.column b)) v.ascending) (
        cert_searched (lower (trim v.q))
          (unless_all (λ (r : CertRow). level_text r.level) v.level rows))

-- `eolState`; the column may be any field of a product.
pub record EolView (N : Numbers) : Type 0 where
  pub q : Text
  pub status : Text
  pub column : EolRow → Cell N
  pub ascending : Bool

-- A host of a product, as far as the search reads it.
pub record Host : Type 0 where
  pub host : Text
  pub fqdn : Text

unfoldable pub in_eol_status : Text → List EolRow → List EolRow
in_eol_status status rows =
    if text_eq status (text "action")
    then filter
        (λ (r : EolRow). text_eq r.status (text "eol") || text_eq r.status (text "extended")) rows
    else unless_all (λ (r : EolRow). r.status) status rows

module _ (B : Browser) (cached : Text → Text → Option (List Host)) where
  open B use {lower}

  host_mentions : Text → List Host → Bool
  host_mentions q hosts = any (λ (x : Host). includes x.fqdn q || includes (lower x.host) q) hosts

  -- `cached` is the cache of hosts by product and version.
  eol_mentions : Text → EolRow → Bool
  eol_mentions q r =
      includes (lower r.product) q
      || includes (lower r.version) q
      || host_mentions q (get_or (cached r.product r.version) [])

  eol_searched : Text → List EolRow → List EolRow
  eol_searched q rows = if is_empty q then rows else filter (eol_mentions q) rows

  -- `applyEolFilters`
  unfoldable pub apply_eol_filters : (N : Numbers) → EolView N → List EolRow → List EolRow
  unfolding eol_searched eol_mentions host_mentions
  apply_eol_filters N v rows =
      sort (compare_by (λ (a b : EolRow). cell_lt N (v.column a) (v.column b)) v.ascending)
        (eol_searched (lower (trim v.q)) (in_eol_status v.status rows))

-- `diskState`; a column's value is missing (null) or a cell, and no environments are all.
pub record DiskView (F : Type 0) (V : Type 0) : Type 0 where
  pub status : Text
  pub owner : Text
  pub envs : List Text
  pub service : Text
  pub include_nonprod : Bool
  pub column : DiskRow F → Option V
  pub ascending : Bool

module _ {V : Type 0} (lt : V → V → Bool) where
  -- The later test of the comparator: missing values last, whatever the direction.
  unfoldable pub by_column : Bool → Option V → Option V → Sign
  by_column up none none = nil
  by_column up none (some b) = pos
  by_column up (some a) none = neg
  by_column up (some a) (some b) = compare_by lt up a b

module _ {F : Type 0} where
  in_envs : List Text → List (DiskRow F) → List (DiskRow F)
  in_envs envs rows =
      if is_empty envs then rows else filter (λ (d : DiskRow F). has d.environment envs) rows

  without_nonprod : Bool → List (DiskRow F) → List (DiskRow F)
  without_nonprod include rows =
      if include then rows else filter (λ (d : DiskRow F). not d.is_nonprod) rows

  unfoldable pub disk_filters : {V : Type 0} → DiskView F V → List (DiskRow F) → List (DiskRow F)
  unfolding in_envs without_nonprod
  disk_filters v rows = without_nonprod v.include_nonprod (
      unless_all (λ (d : DiskRow F). d.service) v.service
        (in_envs v.envs (
          unless_all (λ (d : DiskRow F). d.technical_owner) v.owner
            (unless_all (λ (d : DiskRow F). decimal d.alert_status) v.status rows))))

module _ {F V : Type 0} (lt : V → V → Bool) where
  unfoldable pub compare_disks : DiskView F V → DiskRow F → DiskRow F → Sign
  compare_disks v a b =
      if ltb b.alert_status a.alert_status
      then neg
      else if ltb a.alert_status b.alert_status
      then pos
      else by_column lt v.ascending (v.column a) (v.column b)

  -- `applyDiskFilters`
  unfoldable pub apply_disk_filters : DiskView F V → List (DiskRow F) → List (DiskRow F)
  apply_disk_filters v rows = sort (compare_disks v) (disk_filters v rows)
