-- ===== src/Orders/Delivery.antt =====
-- modules/orders/digital-delivery.service.ts: the download grants of a paid order. `sha256` is
-- Node's hash of a token, in hexadecimal.
use kori_backend.Constants.{download_grant_ttl_hours, download_grant_max_uses}
use kori_backend.Payments.{revoke_grants, is_digital}
use kori_backend.Database.{
  ◌>>=◌, ◌>>◌, transaction, pure, err, ok, Link, Result, M, Store, Order, DownloadGrant, Env,
  Prisma, OrderItem,
}
use kori_backend.Prelude.{
  ◌*◌, ◌<>◌, ◌+◌, suc, ◌∷◌, [], keep, truthy, none, is_some, List, ◌&&◌, ℕ, text_or, strip_slashes,
  String, Bool, Option,
}

-- A line that can be delivered: digital, and with a file.
abbrev pub is_deliverable : OrderItem → Bool
is_deliverable i = is_digital i.fulfillment_type && is_some (truthy i.digital_asset_path)

-- `baseUrl`, of the variable `PUBLIC_BASE_URL`.
abbrev pub base_url : Option String → String
base_url url = strip_slashes (text_or url "")

module _ (db : Prisma) (sha256 : String → String) (public_base_url : Option String)
    (env : Env) where
  abbrev pub new_grant : ℕ → ℕ → OrderItem → DownloadGrant
  new_grant expires_at k item = record {
    id = env.uuid k;
    order_item_id = item.id;
    token_hash = sha256 (env.token k);
    expires_at = expires_at;
    max_downloads = download_grant_max_uses;
    download_count = 0;
    last_download_at = none;
    revoked_at = none;
  }

  abbrev pub set_grants : Store → Result (List DownloadGrant) → Store × Result (Unit {0})
  set_grants s (ok t) = (record s { grants = t }, ok tt)
  set_grants s (err e) = (s, err e)

  abbrev pub create_grant : DownloadGrant → M (Unit {0})
  create_grant g s = set_grants s (db.download_grant.create g s.grants)

  -- The loop over the deliverable lines; `k` counts the tokens drawn.
  unfoldable pub issue : ℕ → ℕ → List OrderItem → M (List Link)
  issue expires_at k [] = pure []
  issue expires_at k (item ∷ items) = do
    create_grant (new_grant expires_at k item)
    links ← issue expires_at (suc k) items
    pure (
        record {
          name = item.product_name;
          url = base_url public_base_url <> "/downloads/" <> env.token k;
        }
        ∷ links)

  -- `emitirEnlaces`.
  unfoldable pub emitir_enlaces : Order → M (List Link)
  emitir_enlaces order s = elim (keep is_deliverable order.items) [
    | [] ↦ (s, ok [])
    | item ∷ items ↦
        transaction
          (do
            revoke_grants db env (item ∷ items)
            issue (env.now + download_grant_ttl_hours * 60 * 60 * 1000) 0 (item ∷ items))
          s
  ]
