-- ===== src/Assets/MimeTypes/Second.antt =====
-- The arms of `extension_to_mime_impl` from "hhk" to "onetoc2", src/assets.rs.
use rouille.Common.{String, List, [], ◌∷◌}

abbrev pub second_quarter : List (String × String)
second_quarter =
    ("hhk", "application/octet-stream")
    ∷ ("hhp", "application/octet-stream")
    ∷ ("hlp", "application/winhlp")
    ∷ ("hpp", "text/plain; charset=utf8")
    ∷ ("hqx", "application/mac-binhex40")
    ∷ ("hta", "application/hta")
    ∷ ("htc", "text/x-component; charset=utf8")
    ∷ ("htm", "text/html; charset=utf8")
    ∷ ("html", "text/html; charset=utf8")
    ∷ ("htt", "text/webviewhtml; charset=utf8")
    ∷ ("hxa", "application/xml")
    ∷ ("hxc", "application/xml")
    ∷ ("hxd", "application/octet-stream")
    ∷ ("hxe", "application/xml")
    ∷ ("hxf", "application/xml")
    ∷ ("hxh", "application/octet-stream")
    ∷ ("hxi", "application/octet-stream")
    ∷ ("hxk", "application/xml")
    ∷ ("hxq", "application/octet-stream")
    ∷ ("hxr", "application/octet-stream")
    ∷ ("hxs", "application/octet-stream")
    ∷ ("hxt", "text/html; charset=utf8")
    ∷ ("hxv", "application/xml")
    ∷ ("hxw", "application/octet-stream")
    ∷ ("hxx", "text/plain; charset=utf8")
    ∷ ("i", "text/plain; charset=utf8")
    ∷ ("ico", "image/x-icon")
    ∷ ("ics", "application/octet-stream")
    ∷ ("idl", "text/plain; charset=utf8")
    ∷ ("ief", "image/ief")
    ∷ ("iii", "application/x-iphone")
    ∷ ("inc", "text/plain; charset=utf8")
    ∷ ("inf", "application/octet-stream")
    ∷ ("inl", "text/plain; charset=utf8")
    ∷ ("ins", "application/x-internet-signup")
    ∷ ("ipa", "application/x-itunes-ipa")
    ∷ ("ipg", "application/x-itunes-ipg")
    ∷ ("ipproj", "text/plain; charset=utf8")
    ∷ ("ipsw", "application/x-itunes-ipsw")
    ∷ ("iqy", "text/x-ms-iqy; charset=utf8")
    ∷ ("isp", "application/x-internet-signup")
    ∷ ("ite", "application/x-itunes-ite")
    ∷ ("itlp", "application/x-itunes-itlp")
    ∷ ("itms", "application/x-itunes-itms")
    ∷ ("itpc", "application/x-itunes-itpc")
    ∷ ("ivf", "video/x-ivf")
    ∷ ("jar", "application/java-archive")
    ∷ ("java", "application/octet-stream")
    ∷ ("jck", "application/liquidmotion")
    ∷ ("jcz", "application/liquidmotion")
    ∷ ("jfif", "image/pjpeg")
    ∷ ("jnlp", "application/x-java-jnlp-file")
    ∷ ("jpb", "application/octet-stream")
    ∷ ("jpe", "image/jpeg")
    ∷ ("jpeg", "image/jpeg")
    ∷ ("jpg", "image/jpeg")
    ∷ ("js", "application/javascript")
    ∷ ("json", "application/json")
    ∷ ("jsx", "text/jscript; charset=utf8")
    ∷ ("jsxbin", "text/plain; charset=utf8")
    ∷ ("latex", "application/x-latex")
    ∷ ("library-ms", "application/windows-library+xml")
    ∷ ("lit", "application/x-ms-reader")
    ∷ ("loadtest", "application/xml")
    ∷ ("lpk", "application/octet-stream")
    ∷ ("lsf", "video/x-la-asf")
    ∷ ("lst", "text/plain; charset=utf8")
    ∷ ("lsx", "video/x-la-asf")
    ∷ ("lzh", "application/octet-stream")
    ∷ ("m13", "application/x-msmediaview")
    ∷ ("m14", "application/x-msmediaview")
    ∷ ("m1v", "video/mpeg")
    ∷ ("m2t", "video/vnd.dlna.mpeg-tts")
    ∷ ("m2ts", "video/vnd.dlna.mpeg-tts")
    ∷ ("m2v", "video/mpeg")
    ∷ ("m3u", "audio/x-mpegurl")
    ∷ ("m3u8", "audio/x-mpegurl")
    ∷ ("m4a", "audio/m4a")
    ∷ ("m4b", "audio/m4b")
    ∷ ("m4p", "audio/m4p")
    ∷ ("m4r", "audio/x-m4r")
    ∷ ("m4v", "video/x-m4v")
    ∷ ("mac", "image/x-macpaint")
    ∷ ("mak", "text/plain; charset=utf8")
    ∷ ("man", "application/x-troff-man")
    ∷ ("manifest", "application/x-ms-manifest")
    ∷ ("map", "text/plain; charset=utf8")
    ∷ ("master", "application/xml")
    ∷ ("mda", "application/msaccess")
    ∷ ("mdb", "application/x-msaccess")
    ∷ ("mde", "application/msaccess")
    ∷ ("mdp", "application/octet-stream")
    ∷ ("me", "application/x-troff-me")
    ∷ ("mfp", "application/x-shockwave-flash")
    ∷ ("mht", "message/rfc822")
    ∷ ("mhtml", "message/rfc822")
    ∷ ("mid", "audio/mid")
    ∷ ("midi", "audio/mid")
    ∷ ("mix", "application/octet-stream")
    ∷ ("mk", "text/plain; charset=utf8")
    ∷ ("mmf", "application/x-smaf")
    ∷ ("mno", "application/xml")
    ∷ ("mny", "application/x-msmoney")
    ∷ ("mod", "video/mpeg")
    ∷ ("mov", "video/quicktime")
    ∷ ("movie", "video/x-sgi-movie")
    ∷ ("mp2", "video/mpeg")
    ∷ ("mp2v", "video/mpeg")
    ∷ ("mp3", "audio/mpeg")
    ∷ ("mp4", "video/mp4")
    ∷ ("mp4v", "video/mp4")
    ∷ ("mpa", "video/mpeg")
    ∷ ("mpe", "video/mpeg")
    ∷ ("mpeg", "video/mpeg")
    ∷ ("mpf", "application/vnd.ms-mediapackage")
    ∷ ("mpg", "video/mpeg")
    ∷ ("mpp", "application/vnd.ms-project")
    ∷ ("mpv2", "video/mpeg")
    ∷ ("mqv", "video/quicktime")
    ∷ ("ms", "application/x-troff-ms")
    ∷ ("msi", "application/octet-stream")
    ∷ ("mso", "application/octet-stream")
    ∷ ("mts", "video/vnd.dlna.mpeg-tts")
    ∷ ("mtx", "application/xml")
    ∷ ("mvb", "application/x-msmediaview")
    ∷ ("mvc", "application/x-miva-compiled")
    ∷ ("mxp", "application/x-mmxp")
    ∷ ("nc", "application/x-netcdf")
    ∷ ("nsc", "video/x-ms-asf")
    ∷ ("nws", "message/rfc822")
    ∷ ("ocx", "application/octet-stream")
    ∷ ("oda", "application/oda")
    ∷ ("odc", "text/x-ms-odc; charset=utf8")
    ∷ ("odh", "text/plain; charset=utf8")
    ∷ ("odl", "text/plain; charset=utf8")
    ∷ ("odp", "application/vnd.oasis.opendocument.presentation")
    ∷ ("ods", "application/oleobject")
    ∷ ("odt", "application/vnd.oasis.opendocument.text")
    ∷ ("ogg", "application/ogg")
    ∷ ("one", "application/onenote")
    ∷ ("onea", "application/onenote")
    ∷ ("onepkg", "application/onenote")
    ∷ ("onetmp", "application/onenote")
    ∷ ("onetoc", "application/onenote")
    ∷ ("onetoc2", "application/onenote")
    ∷ []
