-- ===== src/Tests/Accounts.antt =====
-- Two admins, "a" and "b", on a server whose password hashes are the passwords, and the setup keys.
use over_mesh.Common.{
  ℕ, ◌≤◌, ◌≡◌, ◌≢◌, ◌↔◌, refl, false, arith, some, none, List, [], ◌∷◌, ok, bytes_beq, bytes_eq,
  if◌then◌else◌,
}
use over_mesh.Store.Users.{User, UserRow, Bcrypt, admin_count, check_password, normalize_username}
use over_mesh.Store.SetupKeys.{Network, SetupKey, SetupKeys, joins, joins_single_use}
use over_mesh.Store.Acl.{AclRule, AclTable, acl, set_acl, renumbered, acl-set_acl}
use over_mesh.Net.{v4, v6}
use over_mesh.AdminApi.{
  Api, done, account, Credentials, handle_login, handle_update_user, apply_change, session_user,
  login_name, number,
}
use over_mesh.AdminApi.Accounts.{HasAdmin}
use over_mesh.AdminApi.Requests.{Request, change, remove, serve_all, serve_all-HasAdmin}
use over_mesh.AdminApi.Sessions.{handle_login-account, handle_update_user-session_user}
use over_mesh.AdminApi.Keys.{
  setup_key_by_id, handle_revoke_setup_key, handle_revoke_setup_key-owner,
}
use over_mesh.Store.Users.Passwords.{HasPassword}
use over_mesh.AdminApi.Lockout.{demotion, demotions_interleaved}

abbrev clear_bcrypt : Bcrypt
clear_bcrypt = record { generate = some; compare = bytes_beq }

abbrev admin_user : ℕ → ℕ → User
admin_user id name = record {
  id = id;
  username = name ∷ [];
  role = "admin";
  disabled = false;
  created_at = 0;
}

abbrev row : ℕ → ℕ → UserRow
row id name = record { user = admin_user id name; password_hash = b'p' ∷ [] }

abbrev server : Api
server = record {
  users = record { rows = row 1 b'a' ∷ row 2 b'b' ∷ []; next_id = 3 };
  audit = [];
  sessions = (9 ∷ [], record { user = admin_user 2 b'b'; exp = 1000 }) ∷ [];
  signup = none;
}

server_HasAdmin : HasAdmin server.users
unfolding admin_count
server_HasAdmin = record {
  keys = (((λ e. omega (arith, e)), tt), (tt, tt));
  low = (omega arith, (omega arith, tt));
  some_admin = omega arith;
}

-- "b" removes "a", then tries to make itself a member.
abbrev requests : List Request
requests =
    record { action = remove (number 1); cookie = some (9 ∷ []); now = 5; token = none }
    ∷ record {
      action = change (number 2) (some demotion);
      cookie = some (9 ∷ []);
      now = 6;
      token = none;
    }
    ∷ []

serve_all-HasAdmin_example : HasAdmin (serve_all clear_bcrypt requests server).users
serve_all-HasAdmin_example = serve_all-HasAdmin clear_bcrypt requests server server_HasAdmin

two_admins : admin_count server.users ≡ 2
unfolding admin_count
two_admins = refl

one_not_two : ◌≢◌ {A = ℕ} 1 2
one_not_two e = omega (arith, e)

demotions_interleaved_example :
    (handle_update_user clear_bcrypt (number 1) (some demotion) (admin_user 2 b'b') server).0 ≡ done
    × (handle_update_user clear_bcrypt (number 2) (some demotion) (admin_user 2 b'b') server).0
      ≡ done
    × admin_count
        (apply_change clear_bcrypt
          (b'b' ∷ [])
          (admin_user 2 b'b')
          2
          demotion
          (apply_change clear_bcrypt (b'b' ∷ []) (admin_user 1 b'a') 1 demotion server).1).1.users
      ≡ 0
demotions_interleaved_example =
    demotions_interleaved clear_bcrypt 1 2 (admin_user 2 b'b') server (row 1 b'a') (row 2 b'b')
      server_HasAdmin.keys refl refl one_not_two refl refl two_admins

abbrev right : Credentials
right = record { username = b'a' ∷ []; password = b'p' ∷ [] }

right_password :
    check_password clear_bcrypt (login_name right) right.password server.users
    ≡ ok (admin_user 1 b'a')
unfolding check_password normalize_username
right_password = refl

handle_login-account_example :
    ((handle_login clear_bcrypt (some (8 ∷ [])) 5 (some right) server).0
      ≡ account (admin_user 1 b'a'))
    ↔ HasPassword clear_bcrypt (login_name right) right.password server.users (admin_user 1 b'a')
handle_login-account_example =
    handle_login-account clear_bcrypt (8 ∷ []) 5 right (admin_user 1 b'a') server

handle_update_user-session_user_example :
    session_user
      (some (9 ∷ []))
      7
      (handle_update_user clear_bcrypt (number 2) (some demotion) (admin_user 1 b'a') server).1
    ≡ session_user (some (9 ∷ [])) 7 server
handle_update_user-session_user_example =
    handle_update_user-session_user clear_bcrypt (number 2) (some demotion) (admin_user 1 b'a')
      server (some (9 ∷ [])) 7

abbrev mesh : Network
mesh = record {
  id = 1;
  name = b'm' ∷ [];
  v4_prefix = record { addr = v4 4; bits = 30 };
  v6_prefix = record { addr = v6 0; bits = 48 };
}

abbrev single_use : SetupKey
single_use = record {
  id = 1;
  network = 1;
  key = b's' ∷ b'k' ∷ [];
  reusable = false;
  revoked = false;
  expires_at = 0;
  used_count = 0;
  created_at = 0;
  owner_user_id = 0;
}

abbrev keys : SetupKeys
keys = record { rows = single_use ∷ []; next_id = 2 }

joins_single_use_example : joins (mesh ∷ []) (b's' ∷ b'k' ∷ []) (1 ∷ 2 ∷ 3 ∷ []) keys ≤ 1
joins_single_use_example =
    joins_single_use (mesh ∷ []) (b's' ∷ b'k' ∷ []) (1 ∷ 2 ∷ 3 ∷ []) keys single_use refl refl

abbrev deny_all : AclRule
deny_all = record { id = 0; action = "deny"; src_ids = []; dst_ids = []; protocol = ""; ports = [] }

abbrev no_rules : AclTable
no_rules = record { rows = []; next_id = 1 }

two_not_one : ◌≢◌ {A = ℕ} 2 1
two_not_one e = omega (arith, e)

acl-set_acl_example :
    (acl 1 (set_acl 1 (deny_all ∷ []) no_rules).1 ≡ (
      if (set_acl 1 (deny_all ∷ []) no_rules).0
      then renumbered 1 (deny_all ∷ [])
      else acl 1 no_rules))
    × (acl 2 (set_acl 1 (deny_all ∷ []) no_rules).1 ≡ acl 2 no_rules)
acl-set_acl_example = acl-set_acl 1 2 (deny_all ∷ []) no_rules two_not_one

-- A member, who owns no key.
abbrev member : User
member = record (admin_user 3 b'c') { role = "member" }

abbrev others_key : SetupKey
others_key = record single_use { owner_user_id = 2 }

two_not_three : ◌≢◌ {A = ℕ} 2 3
two_not_three e = omega (arith, e)

handle_revoke_setup_key-owner_example :
    setup_key_by_id 1
      (handle_revoke_setup_key
        (number 1)
        member
        (record { keys = record { rows = others_key ∷ []; next_id = 2 }; audit = [] })).1.keys
    ≡ some others_key
handle_revoke_setup_key-owner_example =
    handle_revoke_setup_key-owner (number 1) member
      (record { keys = record { rows = others_key ∷ []; next_id = 2 }; audit = [] }) 1 others_key
      refl refl two_not_three
