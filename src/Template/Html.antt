-- ===== src/Template/Html.antt =====
-- `DEFAULT_HTML` and `formatHtml` of frontend/src/pages/templateEditor.utils.ts; `brand_logo` is the
-- image of frontend/src/lib/brandLogo.ts.
use Prim.Native.String
use procovar_notify.Prelude.{String, Option, none, some, ◌==◌, if◌then◌else◌}
use procovar_notify.Structure.Variables.{trim}

unfoldable pub default_html : String → String
default_html brand_logo =
    String.◌++◌
      "<!DOCTYPE html>\n<html>\n  <body style=\"margin:0;background:#f4f4f4;font-family:Arial,Helvetica,sans-serif;\">\n    <table role=\"presentation\" width=\"100%\" cellpadding=\"0\" cellspacing=\"0\" style=\"background:#f4f4f4;\">\n      <tr><td align=\"center\" style=\"padding:24px;\">\n        <table role=\"presentation\" width=\"600\" cellpadding=\"0\" cellspacing=\"0\" style=\"max-width:600px;width:100%;background:#fff;border-radius:8px;\">\n          <tr><td style=\"text-align:center;padding:24px 24px 8px;\"><img src=\""
      (String.◌++◌ brand_logo
        "\" alt=\"{{appName}}\" style=\"max-height:44px;max-width:200px;\"></td></tr>\n          <tr><td style=\"padding:8px 32px 32px;\">\n            <h1 style=\"margin:0 0 12px;font-size:22px;color:#111;\">Hola {{firstName}}</h1>\n            <p style=\"margin:0;color:#444;font-size:15px;line-height:1.6;\">Escribe aquí tu contenido. Usa {{variables}} para insertar datos.</p>\n          </td></tr>\n        </table>\n      </td></tr>\n    </table>\n  </body>\n</html>")

-- `formatHtml`: `beautify` is the call of js-beautify, with `none` if it throws.
abbrev kept_or : String → Option String → String
kept_or src none = src
kept_or src (some out) = out

unfoldable pub format_html : (String → Option String) → String → String
unfolding trim
format_html beautify src = if trim src == "" then src else kept_or src (beautify src)
