-- ===== src/Notifications.antt =====
-- internal/notifications/password_reset.go: the e-mail with a reset link.
use Prim.Native.String.{◌++◌ as ◌⧺◌}
use pocket_mvp_backend.Prelude.{
  Option, none, some, String, List, [], ◌∷◌, ◌++◌, ◌||◌, if◌then◌else◌, ◌==◌,
}
use pocket_mvp_backend.Faults.{other}
use pocket_mvp_backend.Effects.{Op, Mail, ok, pure, ask, or_fail, external, ◌>>=◌}
use pocket_mvp_backend.GoText.{trim_space}

pub record PasswordResetSender : Type 0 where
  pub address : String
  pub username : String
  pub password : String
  pub from : String

unfoldable pub new_password_reset_sender : String → String → String → String → PasswordResetSender
new_password_reset_sender address username password from = record {
  address = trim_space address;
  username = username;
  password = password;
  from = trim_space from;
}

-- `passwordResetBody`
unfoldable pub password_reset_body : String → String → String
password_reset_body locale reset_url =
    if locale == "ru"
    then "Вы запросили смену пароля Pocket. Ссылка действует ограниченное время:\r\n\r\n"
      ⧺ (reset_url ⧺ "\r\n\r\nЕсли это были не вы, проигнорируйте письмо.")
    else if locale == "ua" || locale == "uk"
    then "Ви запросили зміну пароля Pocket. Посилання діє обмежений час:\r\n\r\n"
      ⧺ (reset_url ⧺ "\r\n\r\nЯкщо це були не ви, проігноруйте лист.")
    else if locale == "sk"
    then "Požiadali ste o zmenu hesla Pocket. Odkaz je platný obmedzený čas:\r\n\r\n"
      ⧺ (reset_url ⧺ "\r\n\r\nAk ste o zmenu nežiadali, tento e-mail ignorujte.")
    else "You requested a Pocket password change. This link is valid for a limited time:\r\n\r\n"
      ⧺ (reset_url ⧺ "\r\n\r\nIf this was not you, ignore this e-mail.")

-- strings.Join(lines, "\r\n")
abbrev join_lines : List String → String
join_lines [] = ""
join_lines (line ∷ []) = line
join_lines (line ∷ next ∷ rest) = line ⧺ ("\r\n" ⧺ join_lines (next ∷ rest))

unfoldable pub reset_message : PasswordResetSender → String → String → String → String
reset_message sender recipient reset_url locale = join_lines (
    ("From: Pocket <" ⧺ (sender.from ⧺ ">"))
    ∷ ("To: " ⧺ recipient)
    ∷ "Subject: Reset your Pocket password"
    ∷ "MIME-Version: 1.0"
    ∷ "Content-Type: text/plain; charset=UTF-8"
    ∷ "Content-Transfer-Encoding: 8bit"
    ∷ ""
    ∷ password_reset_body locale reset_url
    ∷ [])

abbrev login_of : PasswordResetSender → Option (String × String)
login_of sender = if sender.username == "" then none else some (sender.username, sender.password)

abbrev pub reset_mail : PasswordResetSender → String → String → String → Mail
reset_mail sender recipient reset_url locale = record {
  server = sender.address;
  login = login_of sender;
  sender = sender.from;
  recipient = recipient;
  message = reset_message sender recipient reset_url locale;
}

-- smtp.SendMail
unfoldable pub send_mail : Mail → Op Unit
send_mail mail = external λ n e s. (ok tt, record s { outbox = s.outbox ++ mail ∷ [] })

-- `SendPasswordReset`; without a server the link is only logged.
unfoldable pub send_password_reset : PasswordResetSender → String → String → String → Op Unit
send_password_reset sender recipient reset_url locale = if sender.address == "" then pure tt else do
  e ← ask
  host ← or_fail (e.split_host_port sender.address) other
  send_mail (reset_mail sender recipient reset_url locale)
