-- ===== src/Orders/Downloads.antt =====
-- modules/orders/downloads.controller.ts: a buyer's download by the token of the mail.
use kori_backend.Prelude.{
  ◌<>◌, leb, ◌==◌, is_some, [], or_else, if◌then◌else◌, ◌∷◌, ◌&&◌, truthy, str_eq, some, none, ltb,
  ◌+◌, List, Bool, ℕ, String, Option,
}
use kori_backend.Database.{
  ◌>>◌, ok, throw, http, err, M, Order, Env, Result, OrderItem, Prisma, DownloadGrant,
}

abbrev pub token_is : String → DownloadGrant → Bool
token_is hash g = str_eq g.token_hash hash

abbrev pub grant_is : String → DownloadGrant → Bool
grant_is id g = str_eq g.id id

abbrev find_item_in : String → List OrderItem → Option OrderItem
find_item_in id [] = none
find_item_in id (i ∷ is) = if str_eq i.id id then some i else find_item_in id is

-- `include: { orderItem: true }`.
abbrev pub find_item : String → List Order → Option OrderItem
find_item id [] = none
find_item id (o ∷ os) = or_else (find_item_in id o.items) (find_item id os)

abbrev pub asset_path : Option OrderItem → Option String
asset_path none = none
asset_path (some i) = truthy i.digital_asset_path

abbrev pub product_name : Option OrderItem → String
product_name none = ""
product_name (some i) = i.product_name

-- The condition and the patch of the update that counts a download.
abbrev pub has_room : DownloadGrant → DownloadGrant → Bool
has_room read g = ltb g.download_count read.max_downloads && grant_is read.id g

abbrev pub count_download : ℕ → DownloadGrant → DownloadGrant
count_download now g = record g {
  download_count = g.download_count + 1;
  last_download_at = some now;
}

-- `signed_url` is the storage service's.
module _ (db : Prisma) (sha256 : String → String)
    (signed_url : String → String → Result String) where
  -- The checks, on the grant as it was read.
  unfoldable pub check : ℕ → List Order → Option DownloadGrant → Result (DownloadGrant × String)
  check now orders none = err (http 404)
  check now orders (some g) =
      if is_some g.revoked_at
      then err (http 404)
      else if ltb g.expires_at now
      then err (http 410)
      else if leb g.max_downloads g.download_count
      then err (http 410)
      else elim (asset_path (find_item g.order_item_id orders)) [
        | none ↦ err (http 404)
        | some path ↦ ok (g, path)
      ]

  -- The update that takes one of the uses, which other requests may precede.
  unfoldable pub take_use : Env → DownloadGrant → M (Unit {0})
  take_use env read s =
      let (t, n) =
        db.download_grant.update_many (has_room read) (count_download env.now) s.grants in
      (record s { grants = t }, if n == 0 then err (http 410) else ok tt)

  abbrev pub serve : Env → Result (DownloadGrant × String) → M String
  serve env (err e) = throw e
  serve env (ok (g, path)) = do
    take_use env g
    λ s. (s, signed_url path (product_name (find_item g.order_item_id s.orders) <> ".zip"))

  unfoldable pub download : Env → String → M String
  download env token s =
      serve env
        (check env.now s.orders (db.download_grant.find_first (token_is (sha256 token)) s.grants)) s
