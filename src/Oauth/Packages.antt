-- ===== src/Oauth/Packages.antt =====
-- The generated client packages: each reads the credentials of a request under keys of its own type.
use terraform_provider_confl.Base.{
  ℕ, Bool, true, false, ◌&&◌, Option, none, some, List, [], ◌∷◌, String, ◌==◌, ◌≡◌, refl,
  if◌then◌else◌,
}

pub data Package : Type 0 where
  apikeysv2 byokv1 connectcustompluginv1 ccpmv1 cmkv2 iamv2 iamipfilteringv2 certificateauthorityv2
        camv1 ssov2 providerintegrationv1 providerintegrationv2 iamv1 mdsv2 networkingv1
        flinkartifactv1 flinkv2 networkingaccesspointv1 networkinggatewayv1 networkingipv1
        networkingprivatelinkv1 networkingdnsforwarderv1 endpointv1 srcmv3 connectv1 orgv2 ksqlv2
        identityproviderv2 kafkaquotasv1 kafkarestv3 schemaregistryv1 datacatalogv1 flinkgatewayv1
        tableflowv1 rtcev1 :
      Package

abbrev index : Package → ℕ
index apikeysv2 = 0
index byokv1 = 1
index connectcustompluginv1 = 2
index ccpmv1 = 3
index cmkv2 = 4
index iamv2 = 5
index iamipfilteringv2 = 6
index certificateauthorityv2 = 7
index camv1 = 8
index ssov2 = 9
index providerintegrationv1 = 10
index providerintegrationv2 = 11
index iamv1 = 12
index mdsv2 = 13
index networkingv1 = 14
index flinkartifactv1 = 15
index flinkv2 = 16
index networkingaccesspointv1 = 17
index networkinggatewayv1 = 18
index networkingipv1 = 19
index networkingprivatelinkv1 = 20
index networkingdnsforwarderv1 = 21
index endpointv1 = 22
index srcmv3 = 23
index connectv1 = 24
index orgv2 = 25
index ksqlv2 = 26
index identityproviderv2 = 27
index kafkaquotasv1 = 28
index kafkarestv3 = 29
index schemaregistryv1 = 30
index datacatalogv1 = 31
index flinkgatewayv1 = 32
index tableflowv1 = 33
index rtcev1 = 34

pub data Name : Type 0 where
  access_token basic_auth : Name

abbrev same_name : Name → Name → Bool
same_name access_token access_token = true
same_name basic_auth basic_auth = true
same_name _ _ = false

pub data Value : Type 0 where
  token : String → Value
  user : (name password : String) → Value

-- `context.Context`: the values, the last one first.
abbrev pub Context : Type 0
Context = List (Package × Name × Value)

-- `context.WithValue`
unfoldable pub with_value : Context → Package → Name → Value → Context
with_value ctx owner name value = (owner, name, value) ∷ ctx

-- `ctx.Value(key)`
unfoldable pub value_of : Context → Package → Name → Option Value
value_of [] owner name = none
value_of ((p, n, value) ∷ ctx) owner name =
    if index p == index owner && same_name n name then some value else value_of ctx owner name

pub value_of-with_value :
    (ctx : Context) (owner : Package) (value : Value)
    → value_of (with_value ctx owner access_token value) owner access_token ≡ some value
unfolding value_of with_value
value_of-with_value ctx apikeysv2 value = refl
value_of-with_value ctx _ value = refl
