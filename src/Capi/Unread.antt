-- ===== src/Capi/Unread.antt =====
-- A configuration that is not read to its end.
use seekserve.Common.{◌∙◌, ◌≡◌, refl, ap, Bool, true, false, some, List, ◌∷◌, arith}
use seekserve.Common.Bytes.{Bytes, codes, is_empty}
use seekserve.Api.State.{ApiRequest, Control}
use seekserve.Api.Handler.{is_authorized}
use seekserve.Capi.Settings.{
  Member, absent, text, flag, number, null, items, ConfigJson, Settings, default_settings, Reading,
  throws, read_text, read_save_path, later_readers, read_all, parse_config,
}

-- A member that is there and is no text.
abbrev pub is_bad_text : Member → Bool
is_bad_text absent = false
is_bad_text (text t) = false
is_bad_text (flag b) = true
is_bad_text (number n) = true
is_bad_text null = true
is_bad_text (items ts) = true

read_text-bad :
    (m : Member) (f : Bytes → Settings) (s : Settings)
    → is_bad_text m ≡ true
    → read_text m f s ≡ throws s
read_text-bad absent f s e = ground arith
read_text-bad (text t) f s e = ground arith
read_text-bad (flag b) f s e = refl
read_text-bad (number n) f s e = refl
read_text-bad null f s e = refl
read_text-bad (items ts) f s e = refl

read_all-throws :
    (r : Settings → Reading) (rs : List (Settings → Reading)) (s : Settings)
    → r s ≡ throws s
    → read_all (r ∷ rs) s ≡ s
unfolding read_all
read_all-throws r rs s e = rw e refl

parse_config-default :
    (parse : Bytes → ConfigJson) (config_json : Bytes) (j : Bytes → Member)
    → is_empty config_json ≡ false
    → parse config_json ≡ some j
    → is_bad_text (j (codes "save_path")) ≡ true
    → parse_config parse (some config_json) ≡ default_settings
unfolding parse_config
parse_config-default parse config_json j nonempty parsed bad =
    rw (nonempty, parse_config, parsed)
      (read_all-throws (read_save_path j) (later_readers j) default_settings (
        read_text-bad (j (codes "save_path")) (λ t. record default_settings { save_path = t })
          default_settings bad))

-- A configuration whose `save_path` is no text has no token, whatever its `auth_token` says, and a control
-- server with this token takes every request for authorized.
pub parse_config-is_authorized :
    (parse : Bytes → ConfigJson) (config_json : Bytes) (j : Bytes → Member) (c : Control)
    (req : ApiRequest)
    → is_empty config_json ≡ false
    → parse config_json ≡ some j
    → is_bad_text (j (codes "save_path")) ≡ true
    → c.auth_token ≡ (parse_config parse (some config_json)).auth_token
    → is_authorized req c ≡ true
unfolding is_authorized
parse_config-is_authorized parse config_json j c req nonempty parsed bad same =
    rw
      (same
        ∙ ap (λ (t : Settings). t.auth_token)
            (parse_config-default parse config_json j nonempty parsed bad))
      refl
