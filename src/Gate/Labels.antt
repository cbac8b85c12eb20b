-- ===== src/Gate/Labels.antt =====
-- lovensepy/services/http_api/ua_labels.py: short labels of a visitor's device and browser.
use lovensepy.Base.{
  String, not, ◌&&◌, ◌||◌, Option, if◌then◌else◌, ◌==◌, ℕ_Eq, String_Eq, Pair_Eq, Codes_Eq,
}
use lovensepy.Base.Text.{contains, lower, or_empty}

unfoldable pub device_label : Option String → String
device_label user_agent =
    let ua = lower (or_empty user_agent) in
    if ua == ""
    then "Unknown device"
    else if contains ua "iphone"
    then "iPhone"
    else if contains ua "ipad"
    then "iPad"
    else if contains ua "android"
    then "Android"
    else if contains ua "macintosh" || contains ua "mac os"
    then "Mac"
    else if contains ua "windows"
    then "Windows"
    else if contains ua "cros"
    then "Chromebook"
    else if contains ua "linux"
    then "Linux"
    else "Unknown device"

unfoldable pub browser_label : Option String → String
browser_label user_agent =
    let ua = lower (or_empty user_agent) in
    if ua == ""
    then "Unknown browser"
    else if contains ua "edg/" || contains ua "edgios/"
    then "Edge"
    else if contains ua "crios/" || (contains ua "chrome/" && not (contains ua "chromium"))
    then "Chrome"
    else if contains ua "firefox/" || contains ua "fxios/"
    then "Firefox"
    else if contains ua "safari/" && not (contains ua "chrome") && not (contains ua "crios")
    then "Safari"
    else "Browser"
