-- ===== src/World/Actions.antt =====
-- An `async def` of the services is an action: it takes the world to a result and a world.
use collabflow.Common.{ℕ, suc, Bool, true, false, Option, none, some, ◌∷◌}
use collabflow.World.State.{World, Db, Result, ok, err, Error, Message, Email}

abbrev pub Exec : Type 0 → Type 0
Exec A = World → Result A × World

-- what is left to run after a first part has ended
abbrev pub continue : {A B : Type 0} → Result A × World → (A → Exec B) → Result B × World
continue (ok a, w) f = f a w
continue (err e, w) f = (err e, w)

infixl 5 ◌>>=◌ ◌>>◌
abbrev pub ◌>>=◌ : {A B : Type 0} → Exec A → (A → Exec B) → Exec B
◌>>=◌ m f w = continue (m w) f

abbrev pub ◌>>◌ : {A B : Type 0} → Exec A → Exec B → Exec B
m >> k = m >>= λ _. k

abbrev pub pure : {A : Type 0} → A → Exec A
pure a w = (ok a, w)

abbrev pub raise : {A : Type 0} → Error → Exec A
raise e w = (err e, w)

-- Skips the action unless the test holds.
abbrev pub when : Bool → Exec (Unit {0}) → Exec (Unit {0})
when true m = m
when false m = pure tt

-- Raises if the test holds.
abbrev pub raise_if : Bool → Error → Exec (Unit {0})
raise_if true e = raise e
raise_if false e = pure tt

-- Raises on `None`.
abbrev pub or_raise : {A : Type 0} → Option A → Error → Exec A
or_raise none e = raise e
or_raise (some a) e = pure a

-- A query: reads the session.
abbrev pub query : {A : Type 0} → (Db → A) → Exec A
query q w = (ok (q w.session), w)

-- A flush: writes the session.
abbrev pub write : (Db → Db) → Exec (Unit {0})
write f w = (ok tt, record w { session = f w.session })

-- datetime.now(UTC), and the server default now()
abbrev pub now : Exec ℕ
now w = (ok w.clock, w)

-- uuid.uuid4()
abbrev pub uuid4 : Exec ℕ
uuid4 w = (ok w.drawn, record w { drawn = suc w.drawn })

-- db.commit() and db.rollback()
unfoldable pub commit : Exec (Unit {0})
commit w = (ok tt, record w { committed = w.session })

unfoldable pub rollback : Exec (Unit {0})
rollback w = (ok tt, record w { session = w.committed })

-- redis.publish
unfoldable pub publish : Message → Exec (Unit {0})
publish m w = (ok tt, record w { published = m ∷ w.published })

-- send_notification_email.delay
unfoldable pub delay : Email → Exec (Unit {0})
delay m w = (ok tt, record w { queue = m ∷ w.queue })

-- `get_db` around a request: the session is opened on the committed database and closed at the end.
unfoldable pub request : {A : Type 0} → Exec A → Exec A
request m w =
    let (r, w') = m (record w { session = w.committed }) in
    (r, record w' { session = w'.committed })

-- try: m; except: handle the error
abbrev pub rescue_from : {A : Type 0} → Result A × World → (Error → Exec A) → Result A × World
rescue_from (ok a, w) handler = (ok a, w)
rescue_from (err e, w) handler = handler e w

abbrev pub rescue : {A : Type 0} → Exec A → (Error → Exec A) → Exec A
rescue m handler w = rescue_from (m w) handler

-- A pure step that may raise.
abbrev pub lift : {A : Type 0} → Result A → Exec A
lift (ok a) = pure a
lift (err e) = raise e
