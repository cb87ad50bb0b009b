-- ===== src/Tokens/Tests.antt =====
-- Runs of the operations on tokens, and the theorems about them at concrete inputs.
use vexa_vm.Common.{◌≡◌, refl, ◌&&◌, Option, none, some, [], ◌∷◌, arith, if◌then◌else◌, ltb}
use vexa_vm.Error.{ok}
use vexa_vm.Db.Text.{is_blank, trim}
use vexa_vm.Tokens.{
  CustomerToken, Tokens, Canonical, canonical_optional_ip, create_customer_link,
  exchange_customer_link, authenticate_customer_session, authenticate_vnc_session, ip_allows,
  session_end, prune_expired_tokens, revoke_customer_session, use_customer,
}
use vexa_vm.Tokens.Session.{authenticate-exchange}
use vexa_vm.Tokens.Prune.{answer, authenticate-prune, authenticate-revoke}
use vexa_vm.Tokens.Steps.{here, next, create_customer, authenticate_customer}
use vexa_vm.Tokens.Steps.Closed.{exchange_customer_link-once}

-- The address texts of these runs are canonical already.
abbrev any_address : Canonical
any_address s = some s

abbrev sample : CustomerToken
sample = record {
  link = record {
    id = "t1";
    vm_id = "vm-1";
    token_hash = 77;
    session_hash = none;
    bound_ip = some "203.0.113.7";
    created_at = 1000;
    expires_at = 9000;
    consumed_at = none;
    session_expires_at = none;
    revoked_at = none;
  };
  scopes = "power" ∷ [];
  last_used_at = none;
}

abbrev no_tokens : Tokens
no_tokens = record { customer = []; vnc = []; vms = "vm-1" ∷ [] }

abbrev linked : Tokens
linked = record { customer = sample ∷ []; vnc = []; vms = "vm-1" ∷ [] }

abbrev used : CustomerToken
used = use_customer 88 2000 5600 sample

abbrev exchanged : Tokens
exchanged = record { customer = used ∷ []; vnc = []; vms = "vm-1" ∷ [] }

created :
    create_customer_link any_address "vm-1" 77
      ("power" ∷ [])
      (some " 203.0.113.7 ")
      9000
      "t1"
      1000
      no_tokens
    ≡ ok (sample, linked)
unfolding is_blank trim create_customer_link canonical_optional_ip
created = refl

exchange_run :
    exchange_customer_link any_address 77 88 (some "203.0.113.7") 2000 7200 linked
    ≡ ok (some used, exchanged)
unfolding is_blank trim exchange_customer_link canonical_optional_ip
exchange_run = refl

elsewhere_run :
    exchange_customer_link any_address 77 88 (some "203.0.113.8") 2000 7200 linked
    ≡ ok (none, linked)
unfolding is_blank trim exchange_customer_link canonical_optional_ip
elsewhere_run = refl

again_run :
    exchange_customer_link any_address 77 99 (some "203.0.113.7") 2001 7200 exchanged
    ≡ ok (none, exchanged)
unfolding is_blank trim exchange_customer_link canonical_optional_ip
again_run = refl

address_run : canonical_optional_ip any_address (some "203.0.113.7") ≡ ok (some "203.0.113.7")
unfolding is_blank trim canonical_optional_ip
address_run = refl

authenticate_run :
    authenticate_customer_session any_address 88 (some "203.0.113.7") 5599 exchanged
    ≡ ok (some used, record exchanged { customer = record used { last_used_at = some 5599 } ∷ [] })
unfolding is_blank trim authenticate_customer_session canonical_optional_ip
authenticate_run = refl

revoked_run :
    authenticate_customer_session any_address 88
      (some "203.0.113.7")
      5599
      (revoke_customer_session 88 3000 exchanged).1
    ≡ ok (none, (revoke_customer_session 88 3000 exchanged).1)
unfolding is_blank trim authenticate_customer_session canonical_optional_ip revoke_customer_session
revoked_run = refl

-- After a session authenticated, the link is tried again.
abbrev seen : Tokens
seen = record exchanged { customer = record used { last_used_at = some 5599 } ∷ [] }

late_run :
    exchange_customer_link any_address 77 99 (some "203.0.113.7") 5600 7200 seen ≡ ok (none, seen)
unfolding is_blank trim exchange_customer_link canonical_optional_ip
late_run = refl

exchange_customer_link-once_example : (◌≡◌ {A = Option CustomerToken} none none) × (seen ≡ seen)
exchange_customer_link-once_example =
    exchange_customer_link-once any_address 77 88 (some "203.0.113.7") 2000 7200 {start = no_tokens}
      99 (some "203.0.113.7") 5600 7200 tt
      (next here
        (create_customer "vm-1" 77 ("power" ∷ []) (some " 203.0.113.7 ") 9000 "t1" 1000 created))
      exchange_run (next here (authenticate_customer 88 (some "203.0.113.7") 5599 authenticate_run))
      (tt, tt) late_run

authenticate-exchange_example : some used ≡ (
    if ltb 5599 (session_end used.expires_at 2000 7200)
      && ip_allows used.bound_ip (some "203.0.113.7")
    then some used
    else none)
authenticate-exchange_example =
    authenticate-exchange any_address 77 88 (some "203.0.113.7") 2000 7200 linked
      (some "203.0.113.7") 5599 (tt, tt) exchange_run address_run authenticate_run

authenticate-prune_example :
    (answer (
        authenticate_customer_session any_address 88 none 5000
          (prune_expired_tokens 4000 exchanged).1)
      ≡ answer (authenticate_customer_session any_address 88 none 5000 exchanged))
    × (authenticate_vnc_session any_address 88 none 5000 (prune_expired_tokens 4000 exchanged).1
        ≡ authenticate_vnc_session any_address 88 none 5000 exchanged)
authenticate-prune_example =
    authenticate-prune any_address 4000 5000 88 none exchanged (omega arith)

authenticate-revoke_example :
    (◌≡◌ {A = Option CustomerToken} none none)
    × ((revoke_customer_session 88 3000 exchanged).1
        ≡ (revoke_customer_session 88 3000 exchanged).1)
authenticate-revoke_example =
    authenticate-revoke any_address 88 3000 (some "203.0.113.7") 5599 exchanged revoked_run
