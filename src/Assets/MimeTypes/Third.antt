-- ===== src/Assets/MimeTypes/Third.antt =====
-- The arms of `extension_to_mime_impl` from "orderedtest" to "testsettings", src/assets.rs.
use rouille.Common.{String, List, [], ◌∷◌}

abbrev pub third_quarter : List (String × String)
third_quarter =
    ("orderedtest", "application/xml")
    ∷ ("osdx", "application/opensearchdescription+xml")
    ∷ ("otf", "application/x-font-opentype")
    ∷ ("p10", "application/pkcs10")
    ∷ ("p12", "application/x-pkcs12")
    ∷ ("p7b", "application/x-pkcs7-certificates")
    ∷ ("p7c", "application/pkcs7-mime")
    ∷ ("p7m", "application/pkcs7-mime")
    ∷ ("p7r", "application/x-pkcs7-certreqresp")
    ∷ ("p7s", "application/pkcs7-signature")
    ∷ ("pbm", "image/x-portable-bitmap")
    ∷ ("pcast", "application/x-podcast")
    ∷ ("pct", "image/pict")
    ∷ ("pcx", "application/octet-stream")
    ∷ ("pcz", "application/octet-stream")
    ∷ ("pdf", "application/pdf")
    ∷ ("pfb", "application/octet-stream")
    ∷ ("pfm", "application/octet-stream")
    ∷ ("pfx", "application/x-pkcs12")
    ∷ ("pgm", "image/x-portable-graymap")
    ∷ ("pic", "image/pict")
    ∷ ("pict", "image/pict")
    ∷ ("pkgdef", "text/plain; charset=utf8")
    ∷ ("pkgundef", "text/plain; charset=utf8")
    ∷ ("pko", "application/vnd.ms-pki.pko")
    ∷ ("pls", "audio/scpls")
    ∷ ("pma", "application/x-perfmon")
    ∷ ("pmc", "application/x-perfmon")
    ∷ ("pml", "application/x-perfmon")
    ∷ ("pmr", "application/x-perfmon")
    ∷ ("pmw", "application/x-perfmon")
    ∷ ("png", "image/png")
    ∷ ("pnm", "image/x-portable-anymap")
    ∷ ("pnt", "image/x-macpaint")
    ∷ ("pntg", "image/x-macpaint")
    ∷ ("pnz", "image/png")
    ∷ ("pot", "application/vnd.ms-powerpoint")
    ∷ ("potm", "application/vnd.ms-powerpoint.template.macroEnabled.12")
    ∷ ("potx", "application/vnd.openxmlformats-officedocument.presentationml.template")
    ∷ ("ppa", "application/vnd.ms-powerpoint")
    ∷ ("ppam", "application/vnd.ms-powerpoint.addin.macroEnabled.12")
    ∷ ("ppm", "image/x-portable-pixmap")
    ∷ ("pps", "application/vnd.ms-powerpoint")
    ∷ ("ppsm", "application/vnd.ms-powerpoint.slideshow.macroEnabled.12")
    ∷ ("ppsx", "application/vnd.openxmlformats-officedocument.presentationml.slideshow")
    ∷ ("ppt", "application/vnd.ms-powerpoint")
    ∷ ("pptm", "application/vnd.ms-powerpoint.presentation.macroEnabled.12")
    ∷ ("pptx", "application/vnd.openxmlformats-officedocument.presentationml.presentation")
    ∷ ("prf", "application/pics-rules")
    ∷ ("prm", "application/octet-stream")
    ∷ ("prx", "application/octet-stream")
    ∷ ("ps", "application/postscript")
    ∷ ("psc1", "application/PowerShell")
    ∷ ("psd", "application/octet-stream")
    ∷ ("psess", "application/xml")
    ∷ ("psm", "application/octet-stream")
    ∷ ("psp", "application/octet-stream")
    ∷ ("pub", "application/x-mspublisher")
    ∷ ("pwz", "application/vnd.ms-powerpoint")
    ∷ ("qht", "text/x-html-insertion; charset=utf8")
    ∷ ("qhtm", "text/x-html-insertion; charset=utf8")
    ∷ ("qt", "video/quicktime")
    ∷ ("qti", "image/x-quicktime")
    ∷ ("qtif", "image/x-quicktime")
    ∷ ("qtl", "application/x-quicktimeplayer")
    ∷ ("qxd", "application/octet-stream")
    ∷ ("ra", "audio/x-pn-realaudio")
    ∷ ("ram", "audio/x-pn-realaudio")
    ∷ ("rar", "application/octet-stream")
    ∷ ("ras", "image/x-cmu-raster")
    ∷ ("rat", "application/rat-file")
    ∷ ("rc", "text/plain; charset=utf8")
    ∷ ("rc2", "text/plain; charset=utf8")
    ∷ ("rct", "text/plain; charset=utf8")
    ∷ ("rdlc", "application/xml")
    ∷ ("resx", "application/xml")
    ∷ ("rf", "image/vnd.rn-realflash")
    ∷ ("rgb", "image/x-rgb")
    ∷ ("rgs", "text/plain; charset=utf8")
    ∷ ("rm", "application/vnd.rn-realmedia")
    ∷ ("rmi", "audio/mid")
    ∷ ("rmp", "application/vnd.rn-rn_music_package")
    ∷ ("roff", "application/x-troff")
    ∷ ("rpm", "audio/x-pn-realaudio-plugin")
    ∷ ("rqy", "text/x-ms-rqy; charset=utf8")
    ∷ ("rtf", "application/rtf")
    ∷ ("rtx", "text/richtext; charset=utf8")
    ∷ ("ruleset", "application/xml")
    ∷ ("s", "text/plain; charset=utf8")
    ∷ ("safariextz", "application/x-safari-safariextz")
    ∷ ("scd", "application/x-msschedule")
    ∷ ("sct", "text/scriptlet; charset=utf8")
    ∷ ("sd2", "audio/x-sd2")
    ∷ ("sdp", "application/sdp")
    ∷ ("sea", "application/octet-stream")
    ∷ ("searchConnector-ms", "application/windows-search-connector+xml")
    ∷ ("setpay", "application/set-payment-initiation")
    ∷ ("setreg", "application/set-registration-initiation")
    ∷ ("settings", "application/xml")
    ∷ ("sfnt", "application/font-sfnt")
    ∷ ("sgimb", "application/x-sgimb")
    ∷ ("sgml", "text/sgml; charset=utf8")
    ∷ ("sh", "application/x-sh")
    ∷ ("shar", "application/x-shar")
    ∷ ("shtml", "text/html; charset=utf8")
    ∷ ("sit", "application/x-stuffit")
    ∷ ("sitemap", "application/xml")
    ∷ ("skin", "application/xml")
    ∷ ("sldm", "application/vnd.ms-powerpoint.slide.macroEnabled.12")
    ∷ ("sldx", "application/vnd.openxmlformats-officedocument.presentationml.slide")
    ∷ ("slk", "application/vnd.ms-excel")
    ∷ ("sln", "text/plain; charset=utf8")
    ∷ ("slupkg-ms", "application/x-ms-license")
    ∷ ("smd", "audio/x-smd")
    ∷ ("smi", "application/octet-stream")
    ∷ ("smx", "audio/x-smd")
    ∷ ("smz", "audio/x-smd")
    ∷ ("snd", "audio/basic")
    ∷ ("snippet", "application/xml")
    ∷ ("snp", "application/octet-stream")
    ∷ ("sol", "text/plain; charset=utf8")
    ∷ ("sor", "text/plain; charset=utf8")
    ∷ ("spc", "application/x-pkcs7-certificates")
    ∷ ("spl", "application/futuresplash")
    ∷ ("src", "application/x-wais-source")
    ∷ ("srf", "text/plain; charset=utf8")
    ∷ ("ssisdeploymentmanifest", "application/xml")
    ∷ ("ssm", "application/streamingmedia")
    ∷ ("sst", "application/vnd.ms-pki.certstore")
    ∷ ("stl", "application/vnd.ms-pki.stl")
    ∷ ("sv4cpio", "application/x-sv4cpio")
    ∷ ("sv4crc", "application/x-sv4crc")
    ∷ ("svc", "application/xml")
    ∷ ("svg", "image/svg+xml")
    ∷ ("swf", "application/x-shockwave-flash")
    ∷ ("t", "application/x-troff")
    ∷ ("tar", "application/x-tar")
    ∷ ("tcl", "application/x-tcl")
    ∷ ("testrunconfig", "application/xml")
    ∷ ("testsettings", "application/xml")
    ∷ []
