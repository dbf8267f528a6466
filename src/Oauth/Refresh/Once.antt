-- ===== src/Oauth/Refresh/Once.antt =====
-- The refresh token grant: that a token is rotated once, and its access tokens end with it.
use orion_auth_backend.Prelude.{
  String, ◌≡◌, ◌≢◌, refl, ap, ◌∙◌, true, false, not, ◌&&◌, List, ◌∷◌, some, arith, first,
  first_passes, first-eq-none, first-update_where, update_where-All, All, eq_iff,
}
use orion_auth_backend.Exec.{ok, ends_ok}
use orion_auth_backend.Model.{OauthClient, AccessToken, RefreshToken, State, Database, was_rotated}
use orion_auth_backend.World.{revoke_access_tokens_by_refresh_token}
use orion_auth_backend.Oauth.Scopes.{parse_space_delimited}
use orion_auth_backend.Oauth.Service.{Service}
use orion_auth_backend.Oauth.Repository.{is_text, revoke_at}
use orion_auth_backend.Oauth.Issue.{TokenResponse}
use orion_auth_backend.Oauth.Refresh.{exchange_refresh_token}
use orion_auth_backend.Oauth.Refresh.Laws.{
  id_is, rotated_now, revoked_access, retired, Rotated, exchange_refresh_token-Rotated,
}

retired_row :
    (svc : Service) (id : String) (s : State) (rt : RefreshToken)
    → first (id_is id) s.refresh_tokens ≡ some rt
    → first (id_is id) (retired svc id s).refresh_tokens ≡ some (rotated_now svc rt)
retired_row svc id s rt h =
    first-update_where (id_is id) (id_is id) (rotated_now svc) s.refresh_tokens (λ x hit. refl)
    ∙ ground (arith, first_passes (id_is id) s.refresh_tokens)

module _ (svc : Service) (client : OauthClient) (id : String) (requested : List String)
    (s s' : State) (resp : TokenResponse) (one : Rotated svc client id requested s s' resp) where
  kept_tokens : s'.refresh_tokens ≡ one.issued.rt ∷ (retired svc id s).refresh_tokens
  kept_tokens = ap (λ (d : Database). d.refresh_tokens) one.issued.tables

  -- The row of the old token after its exchange.
  pub old_row : first (id_is id) s'.refresh_tokens ≡ some (rotated_now svc one.token)
  old_row =
      let new = one.issued.rt in
      let spent = retired_row svc id s one.token one.row in
      let unseen = one.issued.new_key in
      ap (first (id_is id)) kept_tokens
      ∙ unfold first in
        ground
          (arith, eq_iff new.id id, first-eq-none (id_is new.id) (retired svc id s).refresh_tokens)

  -- The row of the new token after the exchange.
  pub new_row :
      first (id_is (svc.hash_token resp.refresh_token)) s'.refresh_tokens ≡ some one.issued.rt
  new_row =
      let hashed = one.issued.hashed in
      ap (first (id_is (svc.hash_token resp.refresh_token))) kept_tokens
      ∙ unfold first in ground (arith, eq_iff one.issued.rt.id (svc.hash_token resp.refresh_token))

-- After a successful exchange no later exchange of the same refresh token returns tokens, by
-- whichever client and scope, while the tables stay as the first one left them.
pub refresh_token_rotated_once :
    (svc : Service) (client later : OauthClient) (token scope scope' : String) (s s' : State)
    (resp again : TokenResponse)
    → exchange_refresh_token svc client token scope s ≡ (ok resp, s')
    → (exchange_refresh_token svc later token scope' s').0 ≢ ok again
refresh_token_rotated_once svc client later token scope scope' s s' resp again h k =
    let id = svc.hash_token token in
    let one = exchange_refresh_token-Rotated svc client token scope s s' resp h in
    let t : State = (exchange_refresh_token svc later token scope' s').1 in
    let two =
      exchange_refresh_token-Rotated svc later token scope' s' t again
        (ends_ok (exchange_refresh_token svc later token scope') s' again k) in
    let spent = old_row svc client id (parse_space_delimited scope) s s' resp one in
    let row = two.row in let unrotated = two.unrotated in unfold was_rotated in ground arith

-- The access tokens that came with the old refresh token are revoked by its exchange, unless the
-- driver fails that update.
pub old_access_tokens_revoked :
    (svc : Service) (client : OauthClient) (token scope : String) (s s' : State)
    (resp : TokenResponse)
    → svc.breaks revoke_access_tokens_by_refresh_token ≡ false
    → exchange_refresh_token svc client token scope s ≡ (ok resp, s')
    → (old : List AccessToken) × (new : AccessToken) × (s'.access_tokens ≡ new ∷ old)
      × All (λ t. is_text (svc.hash_token token) t.refresh_token_id ≡ true → t.revoked ≡ true) old
old_access_tokens_revoked svc client token scope s s' resp works h =
    let id = svc.hash_token token in
    let one = exchange_refresh_token-Rotated svc client token scope s s' resp h in
    (
      revoked_access svc id s,
      one.issued.at,
      ap (λ (d : Database). d.access_tokens) one.issued.tables,
      rw works (
          update_where-All (λ t. is_text id t.refresh_token_id ≡ true → t.revoked ≡ true)
            (λ t. is_text id t.refresh_token_id && not t.revoked) revoke_at s.access_tokens
            (λ t hit p. refl) (λ t miss p. ground arith)),
    )
