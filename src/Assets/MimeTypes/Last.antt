-- ===== src/Assets/MimeTypes/Last.antt =====
-- The arms of `extension_to_mime_impl` from "tex" to "zip", src/assets.rs.
use rouille.Common.{String, List, [], ◌∷◌}

abbrev pub last_quarter : List (String × String)
last_quarter =
    ("tex", "application/x-tex")
    ∷ ("texi", "application/x-texinfo")
    ∷ ("texinfo", "application/x-texinfo")
    ∷ ("tgz", "application/x-compressed")
    ∷ ("thmx", "application/vnd.ms-officetheme")
    ∷ ("thn", "application/octet-stream")
    ∷ ("tif", "image/tiff")
    ∷ ("tiff", "image/tiff")
    ∷ ("tlh", "text/plain; charset=utf8")
    ∷ ("tli", "text/plain; charset=utf8")
    ∷ ("toc", "application/octet-stream")
    ∷ ("tr", "application/x-troff")
    ∷ ("trm", "application/x-msterminal")
    ∷ ("trx", "application/xml")
    ∷ ("ts", "video/vnd.dlna.mpeg-tts")
    ∷ ("tsv", "text/tab-separated-values; charset=utf8")
    ∷ ("ttf", "application/x-font-ttf")
    ∷ ("tts", "video/vnd.dlna.mpeg-tts")
    ∷ ("txt", "text/plain; charset=utf8")
    ∷ ("u32", "application/octet-stream")
    ∷ ("uls", "text/iuls; charset=utf8")
    ∷ ("user", "text/plain; charset=utf8")
    ∷ ("ustar", "application/x-ustar")
    ∷ ("vb", "text/plain; charset=utf8")
    ∷ ("vbdproj", "text/plain; charset=utf8")
    ∷ ("vbk", "video/mpeg")
    ∷ ("vbproj", "text/plain; charset=utf8")
    ∷ ("vbs", "text/vbscript; charset=utf8")
    ∷ ("vcf", "text/x-vcard; charset=utf8")
    ∷ ("vcproj", "Application/xml")
    ∷ ("vcs", "text/plain; charset=utf8")
    ∷ ("vcxproj", "Application/xml")
    ∷ ("vddproj", "text/plain; charset=utf8")
    ∷ ("vdp", "text/plain; charset=utf8")
    ∷ ("vdproj", "text/plain; charset=utf8")
    ∷ ("vdx", "application/vnd.ms-visio.viewer")
    ∷ ("vml", "application/xml")
    ∷ ("vscontent", "application/xml")
    ∷ ("vsct", "application/xml")
    ∷ ("vsd", "application/vnd.visio")
    ∷ ("vsi", "application/ms-vsi")
    ∷ ("vsix", "application/vsix")
    ∷ ("vsixlangpack", "application/xml")
    ∷ ("vsixmanifest", "application/xml")
    ∷ ("vsmdi", "application/xml")
    ∷ ("vspscc", "text/plain; charset=utf8")
    ∷ ("vss", "application/vnd.visio")
    ∷ ("vsscc", "text/plain; charset=utf8")
    ∷ ("vssettings", "application/xml")
    ∷ ("vssscc", "text/plain; charset=utf8")
    ∷ ("vst", "application/vnd.visio")
    ∷ ("vstemplate", "application/xml")
    ∷ ("vsto", "application/x-ms-vsto")
    ∷ ("vsw", "application/vnd.visio")
    ∷ ("vsx", "application/vnd.visio")
    ∷ ("vtx", "application/vnd.visio")
    ∷ ("wasm", "application/wasm")
    ∷ ("wav", "audio/wav")
    ∷ ("wave", "audio/wav")
    ∷ ("wax", "audio/x-ms-wax")
    ∷ ("wbk", "application/msword")
    ∷ ("wbmp", "image/vnd.wap.wbmp")
    ∷ ("wcm", "application/vnd.ms-works")
    ∷ ("wdb", "application/vnd.ms-works")
    ∷ ("wdp", "image/vnd.ms-photo")
    ∷ ("webarchive", "application/x-safari-webarchive")
    ∷ ("webtest", "application/xml")
    ∷ ("wiq", "application/xml")
    ∷ ("wiz", "application/msword")
    ∷ ("wks", "application/vnd.ms-works")
    ∷ ("wlmp", "application/wlmoviemaker")
    ∷ ("wlpginstall", "application/x-wlpg-detect")
    ∷ ("wlpginstall3", "application/x-wlpg3-detect")
    ∷ ("wm", "video/x-ms-wm")
    ∷ ("wma", "audio/x-ms-wma")
    ∷ ("wmd", "application/x-ms-wmd")
    ∷ ("wmf", "application/x-msmetafile")
    ∷ ("wml", "text/vnd.wap.wml; charset=utf8")
    ∷ ("wmlc", "application/vnd.wap.wmlc")
    ∷ ("wmls", "text/vnd.wap.wmlscript; charset=utf8")
    ∷ ("wmlsc", "application/vnd.wap.wmlscriptc")
    ∷ ("wmp", "video/x-ms-wmp")
    ∷ ("wmv", "video/x-ms-wmv")
    ∷ ("wmx", "video/x-ms-wmx")
    ∷ ("wmz", "application/x-ms-wmz")
    ∷ ("woff", "application/font-woff")
    ∷ ("woff2", "application/font-woff2")
    ∷ ("wpl", "application/vnd.ms-wpl")
    ∷ ("wps", "application/vnd.ms-works")
    ∷ ("wri", "application/x-mswrite")
    ∷ ("wrl", "x-world/x-vrml")
    ∷ ("wrz", "x-world/x-vrml")
    ∷ ("wsc", "text/scriptlet; charset=utf8")
    ∷ ("wsdl", "application/xml")
    ∷ ("wvx", "video/x-ms-wvx")
    ∷ ("x", "application/directx")
    ∷ ("xaf", "x-world/x-vrml")
    ∷ ("xaml", "application/xaml+xml")
    ∷ ("xap", "application/x-silverlight-app")
    ∷ ("xbap", "application/x-ms-xbap")
    ∷ ("xbm", "image/x-xbitmap")
    ∷ ("xdr", "text/plain; charset=utf8")
    ∷ ("xht", "application/xhtml+xml")
    ∷ ("xhtml", "application/xhtml+xml")
    ∷ ("xla", "application/vnd.ms-excel")
    ∷ ("xlam", "application/vnd.ms-excel.addin.macroEnabled.12")
    ∷ ("xlc", "application/vnd.ms-excel")
    ∷ ("xld", "application/vnd.ms-excel")
    ∷ ("xlk", "application/vnd.ms-excel")
    ∷ ("xll", "application/vnd.ms-excel")
    ∷ ("xlm", "application/vnd.ms-excel")
    ∷ ("xls", "application/vnd.ms-excel")
    ∷ ("xlsb", "application/vnd.ms-excel.sheet.binary.macroEnabled.12")
    ∷ ("xlsm", "application/vnd.ms-excel.sheet.macroEnabled.12")
    ∷ ("xlsx", "application/vnd.openxmlformats-officedocument.spreadsheetml.sheet")
    ∷ ("xlt", "application/vnd.ms-excel")
    ∷ ("xltm", "application/vnd.ms-excel.template.macroEnabled.12")
    ∷ ("xltx", "application/vnd.openxmlformats-officedocument.spreadsheetml.template")
    ∷ ("xlw", "application/vnd.ms-excel")
    ∷ ("xml", "application/xml")
    ∷ ("xmta", "application/xml")
    ∷ ("xof", "x-world/x-vrml")
    ∷ ("xoml", "text/plain; charset=utf8")
    ∷ ("xpm", "image/x-xpixmap")
    ∷ ("xps", "application/vnd.ms-xpsdocument")
    ∷ ("xrm-ms", "application/xml")
    ∷ ("xsc", "application/xml")
    ∷ ("xsd", "application/xml")
    ∷ ("xsf", "application/xml")
    ∷ ("xsl", "application/xml")
    ∷ ("xslt", "application/xslt+xml")
    ∷ ("xsn", "application/octet-stream")
    ∷ ("xss", "application/xml")
    ∷ ("xtp", "application/octet-stream")
    ∷ ("xwd", "image/x-xwindowdump")
    ∷ ("z", "application/x-compress")
    ∷ ("zip", "application/zip")
    ∷ []
