-- ===== src/Domain/Tests.antt =====
-- Runs of the domain policies, and their theorems at concrete inputs.
use tabela_pubg.Prelude.{◌≡◌, refl, List, [], ◌∷◌}
use tabela_pubg.Domain.{
  OrganizationMembership, MembershipRole, MembershipStatus, validate_owner_removal,
  last_owner_removal, ok,
}

abbrev sole_owner : OrganizationMembership
sole_owner = record { id = "m1"; role = MembershipRole.owner; status = MembershipStatus.active }

abbrev an_admin : OrganizationMembership
an_admin = record { id = "m2"; role = MembershipRole.admin; status = MembershipStatus.active }

abbrev team : List OrganizationMembership
team = sole_owner ∷ an_admin ∷ []

removal_tests :
    (validate_owner_removal "m1" team ≡ last_owner_removal)
    × (validate_owner_removal "m2" team ≡ ok)
    × (validate_owner_removal "m9" team ≡ ok)
unfolding validate_owner_removal
removal_tests = (refl, refl, refl)
