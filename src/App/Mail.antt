-- ===== src/App/Mail.antt =====
-- `send_email` of core/email.py: what it asks of smtplib, in order.
use collabflow.Common.{Option, some, ℕ, Text, List, [], ◌∷◌, ◌++◌}
use collabflow.Config.{Settings}
use collabflow.World.{Email}

pub data Command : Type 0 where
  connect : (host : Text) → (port : ℕ) → Command
  starttls : Command
  login : (user password : Text) → Command
  send_message : (from_email : Text) → Email → Command

-- `if settings.smtp_user and settings.smtp_password`, where an empty text is as good as none
abbrev pub secured : (smtp_user smtp_password : Option Text) → List Command
secured (some (c ∷ user)) (some (d ∷ password)) = starttls ∷ login (c ∷ user) (d ∷ password) ∷ []
secured _ _ = []

unfoldable pub send_email : Settings → Email → List Command
send_email settings email =
    connect settings.smtp_host settings.smtp_port
      ∷ secured settings.smtp_user settings.smtp_password
    ++ send_message settings.smtp_from email ∷ []
