-- ===== src/Oauth/Device/Polling.antt =====
-- The poll of a device code: what a code that yields tokens satisfied, and that it is spent.
use mathlib.Core.Path.{subst}
use orion_auth_backend.Prelude.{
  ℕ, ◌+◌, ◌*◌, ◌≤◌, String, ◌≡◌, ◌≢◌, refl, sym, ap, ◌∙◌, Bool, true, false, Option, none, some,
  arith, first, first_passes, save_row, first-save_row, str_eq, eq_iff, if◌then◌else◌,
}
use orion_auth_backend.Errors.{Error, invalid_grant}
use orion_auth_backend.Exec.{ok, ◌>>=◌, bind_ok, ends_ok, found, ignore}
use orion_auth_backend.Model.{
  OauthClient, DeviceCode, DeviceStatus, pending, denied, authorized, consumed, State, Database,
}
use orion_auth_backend.World.{Op, second, poll_device_code, consume_device_code}
use orion_auth_backend.Oauth.Service.{Service}
use orion_auth_backend.Oauth.Repository.{device_code_by_hash, save_device_code}
use orion_auth_backend.Oauth.Repository.Laws.{transaction_ok}
use orion_auth_backend.Oauth.Issue.{TokenResponse, issue_tokens}
use orion_auth_backend.Oauth.Issue.Laws.{Issued, issue_tokens-Issued}
use orion_auth_backend.Oauth.Device.{
  check_poll, poll, consume_device, exchange_device_code, device_opts, poll_found, read_device_code,
}

abbrev pub device_hash_is : String → DeviceCode → Bool
device_hash_is hash d = str_eq d.device_code_hash hash

-- The tables after `Save` of the row, which the driver may fail.
abbrev pub saved : Bool → DeviceCode → State → State
saved broken row s = if broken then s else record s {
  db = record s.db {
    device_codes = save_row (device_hash_is row.device_code_hash) row s.device_codes;
  };
}

module _ (svc : Service) where
  abbrev pub polled : DeviceCode → DeviceCode
  polled d = record d { last_polled_at = some svc.now }

  abbrev pub spent : DeviceCode → DeviceCode
  spent d = record d { last_polled_at = some svc.now; status = consumed }

  pub find_device_ok :
      (hash : String) (e : Error) (s s' : State) (d : DeviceCode)
      → found e (device_code_by_hash svc.world hash) s ≡ (ok d, s')
      → (first (device_hash_is hash) s.device_codes ≡ some d) × (s' ≡ s)
  unfolding device_code_by_hash
  find_device_ok hash e s s' d h = (ground arith, ground arith)

  ignore_save_ok :
      (op : Op) (row : DeviceCode) (s s' : State) (u : Unit {0})
      → ignore (save_device_code svc.world op row) s ≡ (ok u, s')
      → s' ≡ saved (svc.breaks op) row s
  unfolding save_device_code
  ignore_save_ok op row s s' u h = ground arith

  check_poll_ok :
      (client : OauthClient) (d : DeviceCode) (s s' : State)
      → check_poll svc client d s ≡ (ok tt, s')
      → (s' ≡ s)
        × (d.client_id ≡ client.id)
        × (svc.wall ≤ d.expires_at)
        × ((last : ℕ) → d.last_polled_at ≡ some last → last + d.interval_secs * second ≤ svc.now)
  unfolding check_poll
  check_poll_ok client d s s' h = (ground arith, ground arith, ground arith, λ last e. ground arith)

  poll_ok :
      (client : OauthClient) (d : DeviceCode) (status : DeviceStatus) (s s' : State)
      (resp : TokenResponse)
      → poll svc client d status s ≡ (ok resp, s')
      → (status ≡ authorized)
        × (consume_device svc client d d.user_id d.session_id s ≡ (ok resp, s'))
  unfolding poll ◌>>=◌
  poll_ok client d pending s s' resp h = ground arith
  poll_ok client d denied s s' resp h = ground arith
  poll_ok client d authorized s s' resp h = (refl, h)
  poll_ok client d consumed s s' resp h = ground arith

-- Tokens issued for the user and the session of an authorized code, which is then saved as spent.
pub record Granted (svc : Service) (client : OauthClient) (code : DeviceCode) (before after : State)
    (resp : TokenResponse) : Type 0 where
  pub user : ℕ
  pub session : ℕ
  pub by_user : code.user_id ≡ some user
  pub in_session : code.session_id ≡ some session
  pub middle : State
  pub issued : Issued svc client user (some session) code.scopes before middle resp
  pub ended :
      after ≡ saved (svc.breaks consume_device_code) (record code { status = consumed }) middle

consume_device-Granted :
    (svc : Service) (client : OauthClient) (d : DeviceCode) (user session : Option ℕ) (s s' : State)
    (resp : TokenResponse)
    → d.user_id ≡ user
    → d.session_id ≡ session
    → consume_device svc client d user session s ≡ (ok resp, s')
    → Granted svc client d s s' resp
unfolding consume_device
consume_device-Granted svc client d none session s s' resp eu es h =
    absurd (unfold ◌>>=◌ in ground arith)
consume_device-Granted svc client d (some user) none s s' resp eu es h =
    absurd (unfold ◌>>=◌ in ground arith)
consume_device-Granted svc client d (some user) (some session) s s' resp eu es h =
    let (r, s1, e1, k1) = bind_ok _ _ s h in
    let (u, s2, e2, k2) = bind_ok _ _ s1 k1 in
    let body = issue_tokens svc client user (some session) d.scopes (device_opts svc d) in
    let same : (r ≡ resp) × (s2 ≡ s') = unfold ◌>>=◌ in ground arith in
    let issued = transaction_ok svc.world body s s1 r e1 in
    let ended =
      ignore_save_ok svc consume_device_code (record d { status = consumed }) s1 s2 u e2 in
    record {
      user = user;
      session = session;
      by_user = eu;
      in_session = es;
      middle = s1;
      issued =
          subst (λ t. Issued svc client user (some session) d.scopes s s1 t) same.0
            (issue_tokens-Issued svc client user (some session) d.scopes (device_opts svc d) s s1 r
              issued);
      ended = sym same.1 ∙ ended;
    }

-- A poll that returned tokens: the row, the conditions that it met, and what it issued after the
-- poll was stamped on the row.
pub record Polled (svc : Service) (client : OauthClient) (hash : String) (before after : State)
    (resp : TokenResponse) : Type 0 where
  pub code : DeviceCode
  pub row : first (device_hash_is hash) before.device_codes ≡ some code
  pub client_matches : code.client_id ≡ client.id
  pub live : svc.wall ≤ code.expires_at
  pub not_too_soon :
      (last : ℕ) → code.last_polled_at ≡ some last → last + code.interval_secs * second ≤ svc.now
  pub approved : code.status ≡ authorized
  pub granted :
      Granted svc client
        (polled svc code)
        (saved (svc.breaks poll_device_code) (polled svc code) before)
        after
        resp

-- When a poll returns tokens, the code's row was in the table for this client, not expired, not
-- polled within its interval, and authorized; the tokens are those of the user, the session and
-- the scopes on the row, and the row is then saved as consumed, unless the driver fails that update.
pub exchange_device_code-Polled :
    (svc : Service) (client : OauthClient) (device_code : String) (s s' : State)
    (resp : TokenResponse)
    → exchange_device_code svc client device_code s ≡ (ok resp, s')
    → Polled svc client (svc.hash_token device_code) s s' resp
unfolding exchange_device_code poll_found read_device_code
exchange_device_code-Polled svc client device_code s s' resp h =
    let hash = svc.hash_token device_code in
    let (d, s1, e1, k1) = bind_ok _ _ s h in
    let (u, s2, e2, k2) = bind_ok _ _ s1 k1 in
    let (v, s3, e3, k3) = bind_ok _ _ s2 k2 in
    let (row, same1) = find_device_ok svc hash (invalid_grant "invalid device code") s s1 d e1 in
    let (same2, owned, live, paced) = check_poll_ok svc client d s1 s2 e2 in
    let stamped = ignore_save_ok svc poll_device_code (polled svc d) s2 s3 v e3 in
    let start : s3 ≡ saved (svc.breaks poll_device_code) (polled svc d) s =
      stamped ∙ ap (saved (svc.breaks poll_device_code) (polled svc d)) (same2 ∙ same1) in
    let (approved, rest) = poll_ok svc client (polled svc d) d.status s3 s' resp k3 in
    record {
      code = d;
      row = row;
      client_matches = owned;
      live = live;
      not_too_soon = paced;
      approved = approved;
      granted =
          subst (λ t. Granted svc client (polled svc d) t s' resp) start
            (consume_device-Granted svc client (polled svc d) d.user_id d.session_id s3 s' resp refl
              refl rest);
    }

-- The row that is found after a save of the row with this hash.
saved_row :
    (hash : String) (d row : DeviceCode) (broken : Bool) (s : State)
    → row.device_code_hash ≡ hash
    → first (device_hash_is hash) s.device_codes ≡ some d
    → first (device_hash_is hash) (saved broken row s).device_codes
      ≡ some (if broken then d else row)
saved_row hash d row true s e h = h
saved_row hash d row false s e h =
    let passes = first_passes (device_hash_is hash) s.device_codes in
    first-save_row (device_hash_is hash) (device_hash_is row.device_code_hash) row s.device_codes d
      h
      (ground
        (arith, eq_iff d.device_code_hash hash, eq_iff d.device_code_hash row.device_code_hash))
      (ground (arith, eq_iff row.device_code_hash hash))

module _ (svc : Service) (client : OauthClient) (device_code : String) (s s' : State)
    (resp : TokenResponse) where
  -- The row that a successful poll leaves.
  row_after_poll :
      (one : Polled svc client (svc.hash_token device_code) s s' resp)
      → first (device_hash_is (svc.hash_token device_code)) s'.device_codes
        ≡ some (
            if svc.breaks consume_device_code
            then (if svc.breaks poll_device_code then one.code else polled svc one.code)
            else spent svc one.code)
  row_after_poll one =
      let hash = svc.hash_token device_code in
      let d = one.code in
      let key : d.device_code_hash ≡ hash =
        let row = one.row in
        ground (
          arith,
          first_passes (device_hash_is hash) s.device_codes,
          eq_iff d.device_code_hash hash,
        ) in
      let stamped = saved_row hash d (polled svc d) (svc.breaks poll_device_code) s key one.row in
      let kept = ap (λ (t : Database). t.device_codes) one.granted.issued.tables in
      let last =
        saved_row hash (if svc.breaks poll_device_code then d else polled svc d) (spent svc d)
          (svc.breaks consume_device_code) one.granted.middle key
          (ap (first (device_hash_is hash)) kept ∙ stamped) in
      ap (λ (t : State). first (device_hash_is hash) t.device_codes) one.granted.ended ∙ last

  -- After a poll that returned tokens no later poll of the same code returns tokens, at whichever
  -- time and for whichever client, while the tables stay as the first one left them: the later poll
  -- may run with any clock, draws, driver and collaborators, and hashes the code as the first one did.
  -- The driver must not fail the update that marks the code as consumed.
  pub device_code_spent_once :
      (later_svc : Service) (later : OauthClient) (again : TokenResponse)
      → svc.breaks consume_device_code ≡ false
      → later_svc.hash_token device_code ≡ svc.hash_token device_code
      → exchange_device_code svc client device_code s ≡ (ok resp, s')
      → (exchange_device_code later_svc later device_code s').0 ≢ ok again
  device_code_spent_once later_svc later again works same h k =
      let one = exchange_device_code-Polled svc client device_code s s' resp h in
      let t : State = (exchange_device_code later_svc later device_code s').1 in
      let two =
        exchange_device_code-Polled later_svc later device_code s' t again
          (ends_ok (exchange_device_code later_svc later device_code) s' again k) in
      let left = row_after_poll one in
      let row = rw same at two.row in let approved = two.approved in ground arith

  -- When the driver fails the update that marks the code as consumed, the poll still returns
  -- tokens and the code is left authorized, so that it can be exchanged again.
  pub unconsumed_stays_authorized :
      svc.breaks consume_device_code ≡ true
      → exchange_device_code svc client device_code s ≡ (ok resp, s')
      → (d : DeviceCode) × (first (device_hash_is (svc.hash_token device_code)) s'.device_codes
          ≡ some d)
        × (d.status ≡ authorized)
  unconsumed_stays_authorized broken h =
      let one = exchange_device_code-Polled svc client device_code s s' resp h in
      let approved = one.approved in
      (
        (if svc.breaks poll_device_code then one.code else polled svc one.code),
        row_after_poll one ∙ rw broken refl,
        ground arith,
      )
