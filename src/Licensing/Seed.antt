-- ===== src/Licensing/Seed.antt =====
-- frontend/js/licensing-demo-data.js, LICENCES and RENEWALS: what the page shows while the API does
-- not answer. Names here are the file's sample data.
use operations_api.Common.{none, some, List, [], ◌∷◌, text}
use operations_api.Licensing.{Licence, Renewal, LicensingData}

abbrev pub demo_licences : List Licence
demo_licences =
    record {
      licence_id = 1;
      application_id = none;
      application_name = some (text "Confluence Data Center");
      vendor = text "Atlassian";
      product = text "Confluence Data Center";
      licence_type = text "Annual";
      quantity_held = some 1000;
      audit_frequency = text "Annual";
      audit_owner_sam = some (text "sara.bennett");
      expires_at = text "2026-05-10";
      notice_period_days = 60;
      status_flag = text "engaged";
      notes = some (
          text
            "Maintenance contract lapsed mid-May. Quote received, awaiting PO approval. No support tickets can be raised against Atlassian until paid.");
    }
    ∷ record {
      licence_id = 2;
      application_id = none;
      application_name = some (text "Snyk");
      vendor = text "Snyk";
      product = text "Snyk Enterprise";
      licence_type = text "User Client Access";
      quantity_held = some 100;
      audit_frequency = text "Annual";
      audit_owner_sam = some (text "tom.walsh");
      expires_at = text "2026-06-15";
      notice_period_days = 30;
      status_flag = text "engaged";
      notes = some (
          text
            "Quote in legal review. Devs lose dependency scanning if this lapses — block CI hardening epic.");
    }
    ∷ record {
      licence_id = 3;
      application_id = none;
      application_name = some (text "ResQ");
      vendor = text "ResQ";
      product = text "ResQ Software";
      licence_type = text "Concurrent";
      quantity_held = some 200;
      audit_frequency = text "Quarterly";
      audit_owner_sam = some (text "paul.griffin");
      expires_at = text "2026-07-20";
      notice_period_days = 90;
      status_flag = text "tracked";
      notes = some (
          text
            "90-day notice period — procurement needs engagement by ~2026-04-22 (already passed). Escalate.");
    }
    ∷ record {
      licence_id = 4;
      application_id = none;
      application_name = some (text "Splunk");
      vendor = text "Splunk";
      product = text "Splunk Enterprise";
      licence_type = text "Annual";
      quantity_held = some 0;
      audit_frequency = text "Annual";
      audit_owner_sam = some (text "tom.walsh");
      expires_at = text "2026-08-15";
      notice_period_days = 60;
      status_flag = text "engaged";
      notes = some (
          text
            "Ingest-volume based (500 GB/day). Considering downsizing to 350 GB/day this cycle — SOC has data retention input.");
    }
    ∷ record {
      licence_id = 5;
      application_id = none;
      application_name = some (text "Alteryx");
      vendor = text "Alteryx";
      product = text "Alteryx Designer + Server";
      licence_type = text "User Client Access";
      quantity_held = some 50;
      audit_frequency = text "Annual";
      audit_owner_sam = some (text "paul.griffin");
      expires_at = text "2026-09-10";
      notice_period_days = 60;
      status_flag = text "tracked";
      notes = some (
          text
            "Used heavily by data team. Check seat utilisation before renewal — last cycle we paid for 50 but only ~32 active.");
    }
    ∷ record {
      licence_id = 6;
      application_id = none;
      application_name = some (text "Tableau Server");
      vendor = text "Tableau";
      product = text "Tableau Server";
      licence_type = text "User Client Access";
      quantity_held = some 500;
      audit_frequency = text "Annual";
      audit_owner_sam = some (text "paul.griffin");
      expires_at = text "2026-11-22";
      notice_period_days = 90;
      status_flag = text "tracked";
      notes = some (
          text
            "Multi-year contract option available — procurement to confirm budget envelope for 3-yr lock-in vs annual.");
    }
    ∷ record {
      licence_id = 7;
      application_id = none;
      application_name = some (text "Snowflake");
      vendor = text "Snowflake";
      product = text "Snowflake Standard Edition";
      licence_type = text "Annual";
      quantity_held = some 0;
      audit_frequency = text "Ad-hoc";
      audit_owner_sam = some (text "tom.walsh");
      expires_at = text "2027-02-15";
      notice_period_days = 30;
      status_flag = text "tracked";
      notes = some (
          text
            "Credit-based commit — review actual consumption vs committed credits at Q3 board meeting.");
    }
    ∷ record {
      licence_id = 8;
      application_id = none;
      application_name = some (text "GitLab");
      vendor = text "GitLab";
      product = text "GitLab Ultimate";
      licence_type = text "User Client Access";
      quantity_held = some 200;
      audit_frequency = text "Annual";
      audit_owner_sam = some (text "sara.bennett");
      expires_at = text "2027-08-01";
      notice_period_days = 60;
      status_flag = text "tracked";
      notes = some (
          text
            "Ultimate tier required for security dashboards. Evaluate Premium downgrade if dashboards usage stays low.");
    }
    ∷ []

abbrev pub demo_renewals : List Renewal
demo_renewals =
    record {
      renewal_id = 1;
      licence_id = 6;
      cycle_ended = text "2025-11-22";
      renewed_on = text "2025-11-08";
      new_expires = text "2026-11-22";
      renewed_by = text "paul.griffin";
      notes = text "Renewed for 1 year. Procurement got a 4% uplift held back.";
    }
    ∷ record {
      renewal_id = 2;
      licence_id = 6;
      cycle_ended = text "2024-11-22";
      renewed_on = text "2024-10-30";
      new_expires = text "2025-11-22";
      renewed_by = text "paul.griffin";
      notes = text "Standard 1-year renewal.";
    }
    ∷ record {
      renewal_id = 3;
      licence_id = 7;
      cycle_ended = text "2026-02-15";
      renewed_on = text "2026-01-12";
      new_expires = text "2027-02-15";
      renewed_by = text "tom.walsh";
      notes = text "Credit commit reduced from 250k to 200k after Q4 consumption review.";
    }
    ∷ record {
      renewal_id = 4;
      licence_id = 7;
      cycle_ended = text "2025-02-15";
      renewed_on = text "2025-01-20";
      new_expires = text "2026-02-15";
      renewed_by = text "tom.walsh";
      notes = text "";
    }
    ∷ record {
      renewal_id = 5;
      licence_id = 8;
      cycle_ended = text "2026-08-01";
      renewed_on = text "2026-06-22";
      new_expires = text "2027-08-01";
      renewed_by = text "sara.bennett";
      notes =
          text
            "Stayed on Ultimate tier. Considered Premium downgrade but security wanted dashboards.";
    }
    ∷ record {
      renewal_id = 6;
      licence_id = 5;
      cycle_ended = text "2025-09-10";
      renewed_on = text "2025-08-18";
      new_expires = text "2026-09-10";
      renewed_by = text "paul.griffin";
      notes =
          text
            "Seat count reduced from 75 to 50 (down 25 unused seats). Saved ~30% on cost (per procurement).";
    }
    ∷ []

abbrev pub demo_data : LicensingData
demo_data = record { licences = demo_licences; renewals = demo_renewals }
