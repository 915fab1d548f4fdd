-- ===== src/App/Clients.antt =====
-- The clients that a process keeps: core/redis.py and the two of core/storage.py.
use collabflow.Common.{
  ◌≡◌, refl, Bool, true, false, arith, ℕ, suc, Option, none, some, Text, List, [], ◌∷◌,
}
use collabflow.Config.{Settings}

-- A client that was built: its number, and the URL that it talks to.
pub record Client : Type 0 where
  pub number : ℕ
  pub url : Text

-- `_redis_client`, `_client` and `_presign_client`, and how many clients were built.
pub record Process : Type 0 where
  pub redis_client : Option Client
  pub s3_client : Option Client
  pub presign_client : Option Client
  pub built : ℕ

-- `Redis.from_url` and `_build_client`
abbrev pub build : (url : Text) → Process → Client × Process
build url p = (record { number = p.built; url = url }, record p { built = suc p.built })

abbrev pub redis_from : Option Client → (url : Text) → Process → Client × Process
redis_from (some client) url p = (client, p)
redis_from none url p =
    let (client, q) = build url p in (client, record q { redis_client = some client })

unfoldable pub get_redis_client : Settings → Process → Client × Process
get_redis_client settings p = redis_from p.redis_client settings.redis_url p

-- The client that was closed, if there was one.
unfoldable pub close_redis_client : Process → Option Client × Process
close_redis_client p = (p.redis_client, record p { redis_client = none })

abbrev pub s3_from : Option Client → (url : Text) → Process → Client × Process
s3_from (some client) url p = (client, p)
s3_from none url p = let (client, q) = build url p in (client, record q { s3_client = some client })

unfoldable pub get_s3_client : Settings → Process → Client × Process
get_s3_client settings p = s3_from p.s3_client settings.s3_endpoint_url p

abbrev pub presign_from : Option Client → (url : Text) → Process → Client × Process
presign_from (some client) url p = (client, p)
presign_from none url p =
    let (client, q) = build url p in (client, record q { presign_client = some client })

-- s3_public_endpoint_url or s3_endpoint_url
abbrev pub presign_url : (public : Option Text) → (internal : Text) → Text
presign_url (some (c ∷ public)) internal = c ∷ public
presign_url _ internal = internal

unfoldable pub get_presign_client : Settings → Process → Client × Process
get_presign_client settings p =
    presign_from p.presign_client
      (presign_url settings.s3_public_endpoint_url settings.s3_endpoint_url) p

-- A call of one of the four functions.
pub data Call : Type 0 where
  redis s3 presign close_redis : Call

unfoldable pub call : Settings → Call → Process → Process
unfolding get_redis_client get_s3_client get_presign_client close_redis_client
call settings redis p = (get_redis_client settings p).1
call settings s3 p = (get_s3_client settings p).1
call settings presign p = (get_presign_client settings p).1
call settings close_redis p = (close_redis_client p).1

unfoldable pub calls : Settings → List Call → Process → Process
unfolding call
calls settings [] p = p
calls settings (c ∷ cs) p = calls settings cs (call settings c p)

-- Whether the Redis client is closed on the way.
unfoldable pub closes_redis : List Call → Bool
closes_redis [] = false
closes_redis (close_redis ∷ cs) = true
closes_redis (redis ∷ cs) = closes_redis cs
closes_redis (s3 ∷ cs) = closes_redis cs
closes_redis (presign ∷ cs) = closes_redis cs

module _ (settings : Settings) (client : Client) where
  calls-redis :
      (cs : List Call) (p : Process)
      → closes_redis cs ≡ false
      → p.redis_client ≡ some client
      → (calls settings cs p).redis_client ≡ some client
  unfolding calls closes_redis call get_redis_client get_s3_client get_presign_client
  calls-redis [] p h e = e
  calls-redis (redis ∷ cs) p h e = calls-redis cs _ h (rw e refl)
  calls-redis (s3 ∷ cs) p h e = calls-redis cs _ h (ground (arith, e))
  calls-redis (presign ∷ cs) p h e = calls-redis cs _ h (ground (arith, e))
  calls-redis (close_redis ∷ cs) p h e = ground (arith, h)

  calls-s3 :
      (cs : List Call) (p : Process)
      → p.s3_client ≡ some client
      → (calls settings cs p).s3_client ≡ some client
  unfolding calls call get_redis_client get_s3_client get_presign_client close_redis_client
  calls-s3 [] p e = e
  calls-s3 (redis ∷ cs) p e = calls-s3 cs _ (ground (arith, e))
  calls-s3 (s3 ∷ cs) p e = calls-s3 cs _ (ground (arith, e))
  calls-s3 (presign ∷ cs) p e = calls-s3 cs _ (ground (arith, e))
  calls-s3 (close_redis ∷ cs) p e = calls-s3 cs _ e

  calls-presign :
      (cs : List Call) (p : Process)
      → p.presign_client ≡ some client
      → (calls settings cs p).presign_client ≡ some client
  unfolding calls call get_redis_client get_s3_client get_presign_client close_redis_client
  calls-presign [] p e = e
  calls-presign (redis ∷ cs) p e = calls-presign cs _ (ground (arith, e))
  calls-presign (s3 ∷ cs) p e = calls-presign cs _ (ground (arith, e))
  calls-presign (presign ∷ cs) p e = calls-presign cs _ (ground (arith, e))
  calls-presign (close_redis ∷ cs) p e = calls-presign cs _ e

-- A process that has built a client goes on with it, whatever calls follow in which the Redis client
-- is not closed.
pub calls-same :
    (settings : Settings) (cs : List Call) (p : Process)
    → closes_redis cs ≡ false
    → ((get_redis_client settings (calls settings cs (get_redis_client settings p).1)).0
        ≡ (get_redis_client settings p).0)
      × ((get_s3_client settings (calls settings cs (get_s3_client settings p).1)).0
          ≡ (get_s3_client settings p).0)
      × ((get_presign_client settings (calls settings cs (get_presign_client settings p).1)).0
          ≡ (get_presign_client settings p).0)
unfolding get_redis_client get_s3_client get_presign_client
calls-same settings cs p h = (
  rw
      (calls-redis settings (get_redis_client settings p).0 cs (get_redis_client settings p).1 h
        (ground arith))
      refl,
  rw (calls-s3 settings (get_s3_client settings p).0 cs (get_s3_client settings p).1 (ground arith))
      refl,
  rw
      (calls-presign settings (get_presign_client settings p).0 cs (get_presign_client settings p).1
        (ground arith))
      refl,
)
