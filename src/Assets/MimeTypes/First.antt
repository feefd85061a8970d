-- ===== src/Assets/MimeTypes/First.antt =====
-- The arms of `extension_to_mime_impl` from "323" to "hhc", src/assets.rs.
use rouille.Common.{String, List, [], ◌∷◌}

abbrev pub first_quarter : List (String × String)
first_quarter =
    ("323", "text/h323; charset=utf8")
    ∷ ("3g2", "video/3gpp2")
    ∷ ("3gp", "video/3gpp")
    ∷ ("3gp2", "video/3gpp2")
    ∷ ("3gpp", "video/3gpp")
    ∷ ("7z", "application/x-7z-compressed")
    ∷ ("aa", "audio/audible")
    ∷ ("aac", "audio/aac")
    ∷ ("aaf", "application/octet-stream")
    ∷ ("aax", "audio/vnd.audible.aax")
    ∷ ("ac3", "audio/ac3")
    ∷ ("aca", "application/octet-stream")
    ∷ ("accda", "application/msaccess.addin")
    ∷ ("accdb", "application/msaccess")
    ∷ ("accdc", "application/msaccess.cab")
    ∷ ("accde", "application/msaccess")
    ∷ ("accdr", "application/msaccess.runtime")
    ∷ ("accdt", "application/msaccess")
    ∷ ("accdw", "application/msaccess.webapplication")
    ∷ ("accft", "application/msaccess.ftemplate")
    ∷ ("acx", "application/internet-property-stream")
    ∷ ("addin", "application/xml")
    ∷ ("ade", "application/msaccess")
    ∷ ("adobebridge", "application/x-bridge-url")
    ∷ ("adp", "application/msaccess")
    ∷ ("adt", "audio/vnd.dlna.adts")
    ∷ ("adts", "audio/aac")
    ∷ ("afm", "application/octet-stream")
    ∷ ("ai", "application/postscript")
    ∷ ("aif", "audio/x-aiff")
    ∷ ("aifc", "audio/aiff")
    ∷ ("aiff", "audio/aiff")
    ∷ ("air", "application/vnd.adobe.air-application-installer-package+zip")
    ∷ ("amc", "application/x-mpeg")
    ∷ ("application", "application/x-ms-application")
    ∷ ("art", "image/x-jg")
    ∷ ("asa", "application/xml")
    ∷ ("asax", "application/xml")
    ∷ ("ascx", "application/xml")
    ∷ ("asd", "application/octet-stream")
    ∷ ("asf", "video/x-ms-asf")
    ∷ ("ashx", "application/xml")
    ∷ ("asi", "application/octet-stream")
    ∷ ("asm", "text/plain; charset=utf8")
    ∷ ("asmx", "application/xml")
    ∷ ("aspx", "application/xml")
    ∷ ("asr", "video/x-ms-asf")
    ∷ ("asx", "video/x-ms-asf")
    ∷ ("atom", "application/atom+xml")
    ∷ ("au", "audio/basic")
    ∷ ("avi", "video/x-msvideo")
    ∷ ("axs", "application/olescript")
    ∷ ("bas", "text/plain; charset=utf8")
    ∷ ("bcpio", "application/x-bcpio")
    ∷ ("bin", "application/octet-stream")
    ∷ ("bmp", "image/bmp")
    ∷ ("c", "text/plain; charset=utf8")
    ∷ ("cab", "application/octet-stream")
    ∷ ("caf", "audio/x-caf")
    ∷ ("calx", "application/vnd.ms-office.calx")
    ∷ ("cat", "application/vnd.ms-pki.seccat")
    ∷ ("cc", "text/plain; charset=utf8")
    ∷ ("cd", "text/plain; charset=utf8")
    ∷ ("cdda", "audio/aiff")
    ∷ ("cdf", "application/x-cdf")
    ∷ ("cer", "application/x-x509-ca-cert")
    ∷ ("chm", "application/octet-stream")
    ∷ ("class", "application/x-java-applet")
    ∷ ("clp", "application/x-msclip")
    ∷ ("cmx", "image/x-cmx")
    ∷ ("cnf", "text/plain; charset=utf8")
    ∷ ("cod", "image/cis-cod")
    ∷ ("config", "application/xml")
    ∷ ("contact", "text/x-ms-contact; charset=utf8")
    ∷ ("coverage", "application/xml")
    ∷ ("cpio", "application/x-cpio")
    ∷ ("cpp", "text/plain; charset=utf8")
    ∷ ("crd", "application/x-mscardfile")
    ∷ ("crl", "application/pkix-crl")
    ∷ ("crt", "application/x-x509-ca-cert")
    ∷ ("cs", "text/plain; charset=utf8")
    ∷ ("csdproj", "text/plain; charset=utf8")
    ∷ ("csh", "application/x-csh")
    ∷ ("csproj", "text/plain; charset=utf8")
    ∷ ("css", "text/css; charset=utf8")
    ∷ ("csv", "text/csv; charset=utf8")
    ∷ ("cur", "application/octet-stream")
    ∷ ("cxx", "text/plain; charset=utf8")
    ∷ ("dat", "application/octet-stream")
    ∷ ("datasource", "application/xml")
    ∷ ("dbproj", "text/plain; charset=utf8")
    ∷ ("dcr", "application/x-director")
    ∷ ("def", "text/plain; charset=utf8")
    ∷ ("deploy", "application/octet-stream")
    ∷ ("der", "application/x-x509-ca-cert")
    ∷ ("dgml", "application/xml")
    ∷ ("dib", "image/bmp")
    ∷ ("dif", "video/x-dv")
    ∷ ("dir", "application/x-director")
    ∷ ("disco", "application/xml")
    ∷ ("dll", "application/x-msdownload")
    ∷ ("dll.config", "application/xml")
    ∷ ("dlm", "text/dlm; charset=utf8")
    ∷ ("doc", "application/msword")
    ∷ ("docm", "application/vnd.ms-word.document.macroEnabled.12")
    ∷ ("docx", "application/vnd.openxmlformats-officedocument.wordprocessingml.document")
    ∷ ("dot", "application/msword")
    ∷ ("dotm", "application/vnd.ms-word.template.macroEnabled.12")
    ∷ ("dotx", "application/vnd.openxmlformats-officedocument.wordprocessingml.template")
    ∷ ("dsp", "application/octet-stream")
    ∷ ("dsw", "text/plain; charset=utf8")
    ∷ ("dtd", "application/xml")
    ∷ ("dtsConfig", "application/xml")
    ∷ ("dv", "video/x-dv")
    ∷ ("dvi", "application/x-dvi")
    ∷ ("dwf", "drawing/x-dwf")
    ∷ ("dwp", "application/octet-stream")
    ∷ ("dxr", "application/x-director")
    ∷ ("eml", "message/rfc822")
    ∷ ("emz", "application/octet-stream")
    ∷ ("eot", "application/vnd.ms-fontobject")
    ∷ ("eps", "application/postscript")
    ∷ ("etl", "application/etl")
    ∷ ("etx", "text/x-setext; charset=utf8")
    ∷ ("evy", "application/envoy")
    ∷ ("exe", "application/octet-stream")
    ∷ ("exe.config", "application/xml")
    ∷ ("fdf", "application/vnd.fdf")
    ∷ ("fif", "application/fractals")
    ∷ ("filters", "Application/xml")
    ∷ ("fla", "application/octet-stream")
    ∷ ("flr", "x-world/x-vrml")
    ∷ ("flv", "video/x-flv")
    ∷ ("fsscript", "application/fsharp-script")
    ∷ ("fsx", "application/fsharp-script")
    ∷ ("generictest", "application/xml")
    ∷ ("gif", "image/gif")
    ∷ ("group", "text/x-ms-group; charset=utf8")
    ∷ ("gsm", "audio/x-gsm")
    ∷ ("gtar", "application/x-gtar")
    ∷ ("gz", "application/x-gzip")
    ∷ ("h", "text/plain; charset=utf8")
    ∷ ("hdf", "application/x-hdf")
    ∷ ("hdml", "text/x-hdml; charset=utf8")
    ∷ ("hhc", "application/x-oleobject")
    ∷ []
