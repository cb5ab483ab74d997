-- ===== src/Tabs/Smtp.antt =====
-- The SMTP connections of an application, frontend/src/pages/tabs/Smtp.tsx. `number_of` and `text_of`
-- are the platform's `Number` and `String` on ports, whose type is `N`.
use Prim.Native.String
use procovar_notify.Prelude.{String, Bool, true, false, Option, none, some, ◌==◌, if◌then◌else◌}
use procovar_notify.Tabs.{Panel, Reply, accepted, rejected, opened, submitted, answered, deleted}

pub record Connection (N : Type 0) : Type 0 where
  pub id : String
  pub name : String
  pub host : String
  pub port : N
  pub username : String
  pub from_email : String
  pub from_name : String
  pub secure : Bool
  pub status : String

-- The form, with a text for the port, and the body of the requests, with a number.
pub record SmtpForm (P : Type 0) : Type 0 where
  pub name : String
  pub host : String
  pub port : P
  pub username : String
  pub password : String
  pub from_email : String
  pub from_name : String
  pub secure : Bool

abbrev pub empty : SmtpForm String
empty = record {
  name = "";
  host = "";
  port = "";
  username = "";
  password = "";
  from_email = "";
  from_name = "";
  secure = false;
}

pub record TestResult : Type 0 where
  pub ok : Bool
  pub message : String

pub record SmtpTab (E : Type 0) : Type 0 where
  pub panel : Panel (SmtpForm String) E
  pub edit_id : Option String
  pub test_res : Option TestResult
  pub testing_id : Option String

-- A request of the form: a new connection, or the change of one.
pub data SmtpRequest (N : Type 0) : Type 0 where
  creates : SmtpForm N → SmtpRequest N
  updates : String → SmtpForm N → SmtpRequest N

-- What `test` throws: an error of the client with its text, or another.
pub data TestError : Type 0 where
  api : String → TestError
  other : TestError

abbrev detail_of : TestError → String
detail_of (api text) = text
detail_of other = "No se pudo conectar."

module _ {N : Type 0} where
  abbrev body_of : (String → N) → SmtpForm String → SmtpForm N
  body_of number_of form = record {
    name = form.name;
    host = form.host;
    port = number_of form.port;
    username = form.username;
    password = form.password;
    from_email = form.from_email;
    from_name = form.from_name;
    secure = form.secure;
  }

  abbrev request_for : Option String → SmtpForm N → SmtpRequest N
  request_for none body = creates body
  request_for (some id) body = if id == "" then creates body else updates id body

module _ {E : Type 0} where
  abbrev on_panel : (Panel (SmtpForm String) E → Panel (SmtpForm String) E) → SmtpTab E → SmtpTab E
  on_panel f s = record s { panel = f s.panel }

  unfoldable pub open_new : SmtpTab E → SmtpTab E
  unfolding opened
  open_new s = on_panel (opened empty) (record s { edit_id = none })

  module _ {N : Type 0} where
    unfoldable pub open_edit : (N → String) → Connection N → SmtpTab E → SmtpTab E
    unfolding opened
    open_edit text_of c s =
        on_panel
          (opened (record {
            name = c.name;
            host = c.host;
            port = text_of c.port;
            username = c.username;
            password = "";
            from_email = c.from_email;
            from_name = c.from_name;
            secure = c.secure;
          }))
          (record s { edit_id = some c.id })

    -- The request of `submit`.
    unfoldable pub request : (String → N) → SmtpTab E → SmtpRequest N
    request number_of s = request_for s.edit_id (body_of number_of s.panel.form)

    -- `test` up to its request, and its rest.
    unfoldable pub start_test : Connection N → SmtpTab E → SmtpTab E
    start_test c s = record s { test_res = none; testing_id = some c.id }

    unfoldable pub end_test : Connection N → Reply Unit TestError → SmtpTab E → SmtpTab E
    end_test c (accepted r) s = record s {
      test_res = some (record {
        ok = true;
        message = String.◌++◌ "Conexión correcta con «" (String.◌++◌ c.name "».");
      });
      testing_id = none;
    }
    end_test c (rejected e) s = record s {
      test_res = some (record {
        ok = false;
        message =
            String.◌++◌ "Falló la conexión con «"
              (String.◌++◌ c.name (String.◌++◌ "»: " (detail_of e)));
      });
      testing_id = none;
    }

  -- `submit` up to its request, and its rest.
  unfoldable pub start_submit : SmtpTab E → SmtpTab E
  unfolding submitted
  start_submit s = on_panel submitted s

  unfoldable pub end_submit : Reply Unit E → SmtpTab E → SmtpTab E
  unfolding answered
  end_submit reply s = on_panel (answered reply) s

  unfoldable pub end_delete : Reply Unit E → SmtpTab E → SmtpTab E
  unfolding deleted
  end_delete reply s = on_panel (deleted reply) s
