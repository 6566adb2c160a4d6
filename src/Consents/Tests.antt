-- ===== src/Consents/Tests.antt =====
-- Two requests over a table of consents kept as a list.
use coparentes_backend.Common.{◌≡◌, refl, true, false, none, List, [], ◌∷◌, arith}
use coparentes_backend.Common.Store.{list_store}
use coparentes_backend.Consents.{
  Consent, terms, marketing, consent_row, current_consent, update_user_consent,
}
use coparentes_backend.Consents.Current.{Request, view, run, replay, run_refines}

abbrev rows : List Consent
rows = consent_row 2 terms true 10 "h" none ∷ consent_row 2 marketing false 10 "h" none ∷ []

abbrev requests : List Request
requests =
    record { user = 2; consent_type = marketing; granted = true; time = 20; ip_hash = "h" }
    ∷ record { user = 2; consent_type = terms; granted = false; time = 30; ip_hash = "h" }
    ∷ []

kept_terms : view list_store (run list_store requests rows) 2 terms ≡ true
unfolding run current_consent update_user_consent
kept_terms = refl

run_refines_example :
    view list_store (run list_store requests rows) 2 marketing
    ≡ replay requests (view list_store rows) 2 marketing
run_refines_example =
    run_refines list_store requests rows 10 (omega arith, (omega arith, tt))
      (omega arith, (omega arith, tt)) 2 marketing
