-- ===== src/Mappers/Summaries.antt =====
-- frontend/js/op-boot.js, mapCertBreakdown, mapEolTotals, mapDiskSummary and
-- mapExclusionSummary. A field that is no array is the empty list, as the code treats it.
use operations_api.Common.{ℕ, Option, none, some, List, [], Text, map}
use operations_api.Mappers.{text_or, count}

-- A facet of a summary: a value and how many rows have it.
pub record FacetItem : Type 0 where
  pub value : Option Text
  pub total_count : Option ℕ

pub record Facet : Type 0 where
  pub value : Text
  pub total_count : ℕ

facet : FacetItem → Facet
facet f = record { value = text_or f.value []; total_count = count f.total_count }

pub record CertFacets : Type 0 where
  pub levels : List FacetItem
  pub business_units : List FacetItem

pub record CertBreakdown : Type 0 where
  pub levels : List Facet
  pub business_units : List Facet

unfoldable pub map_cert_breakdown : Option CertFacets → CertBreakdown
unfolding facet
map_cert_breakdown none = record { levels = []; business_units = [] }
map_cert_breakdown (some s) = record {
  levels = map facet s.levels;
  business_units = map facet s.business_units;
}

pub record EolSummary : Type 0 where
  pub total_count : Option ℕ
  pub eol_count : Option ℕ
  pub extended_count : Option ℕ
  pub approaching_count : Option ℕ
  pub supported_count : Option ℕ
  pub affected_servers : Option ℕ

pub record EolTotals : Type 0 where
  pub products : ℕ
  pub eol : ℕ
  pub extended : ℕ
  pub approaching : ℕ
  pub supported : ℕ
  pub affected : ℕ

unfoldable pub map_eol_totals : Option EolSummary → EolTotals
map_eol_totals none = record {
  products = 0;
  eol = 0;
  extended = 0;
  approaching = 0;
  supported = 0;
  affected = 0;
}
map_eol_totals (some s) = record {
  products = count s.total_count;
  eol = count s.eol_count;
  extended = count s.extended_count;
  approaching = count s.approaching_count;
  supported = count s.supported_count;
  affected = count s.affected_servers;
}

-- The counts of an environment or a business unit.
pub record DiskShareItem : Type 0 where
  pub value : Option Text
  pub total_count : Option ℕ
  pub ok_count : Option ℕ
  pub warning_count : Option ℕ
  pub critical_count : Option ℕ

pub record DiskShare : Type 0 where
  pub value : Text
  pub total_count : ℕ
  pub ok_count : ℕ
  pub warning_count : ℕ
  pub critical_count : ℕ

pub record StatusItem : Type 0 where
  pub alert_status : Option ℕ
  pub total_count : Option ℕ

pub record StatusCount : Type 0 where
  pub alert_status : ℕ
  pub total_count : ℕ

pub record DiskSummaryItem : Type 0 where
  pub total_count : Option ℕ
  pub ok_count : Option ℕ
  pub warning_count : Option ℕ
  pub critical_count : Option ℕ
  pub nonprod_count : Option ℕ
  pub environments : List DiskShareItem
  pub business_units : List DiskShareItem
  pub alert_statuses : List StatusItem

pub record DiskSummary : Type 0 where
  pub total_count : ℕ
  pub ok_count : ℕ
  pub warning_count : ℕ
  pub critical_count : ℕ
  pub nonprod_count : ℕ
  pub environments : List DiskShare
  pub business_units : List DiskShare
  pub alert_statuses : List StatusCount

disk_share : DiskShareItem → DiskShare
disk_share s = record {
  value = text_or s.value [];
  total_count = count s.total_count;
  ok_count = count s.ok_count;
  warning_count = count s.warning_count;
  critical_count = count s.critical_count;
}

unfoldable pub map_disk_summary : Option DiskSummaryItem → Option DiskSummary
unfolding disk_share
map_disk_summary none = none
map_disk_summary (some s) = some (record {
  total_count = count s.total_count;
  ok_count = count s.ok_count;
  warning_count = count s.warning_count;
  critical_count = count s.critical_count;
  nonprod_count = count s.nonprod_count;
  environments = map disk_share s.environments;
  business_units = map disk_share s.business_units;
  alert_statuses =
      map
        (λ (a : StatusItem). record {
          alert_status = count a.alert_status;
          total_count = count a.total_count;
        })
        s.alert_statuses;
})

pub record ExclusionSummaryItem : Type 0 where
  pub total_excluded : Option ℕ
  pub hold_expired_count : Option ℕ
  pub states : List FacetItem
  pub business_units : List FacetItem

pub record ExclusionSummary : Type 0 where
  pub total_excluded : ℕ
  pub hold_expired_count : ℕ
  pub states : List Facet
  pub business_units : List Facet

unfoldable pub map_exclusion_summary : Option ExclusionSummaryItem → Option ExclusionSummary
unfolding facet
map_exclusion_summary none = none
map_exclusion_summary (some s) = some (record {
  total_excluded = count s.total_excluded;
  hold_expired_count = count s.hold_expired_count;
  states = map facet s.states;
  business_units = map facet s.business_units;
})
