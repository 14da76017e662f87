-- ===== src/Freshness/Parse.antt =====
-- internal/freshness/release_parse.go, packages_parse.go, sources_parse.go and pdiff_parse.go: the
-- readers of Release, Packages, Sources and pdiff Index files. A text is its list of bytes. The
-- scanner's lines are read one after the other, with a line of 1 MiB or more an error behind the lines before it; an error is a
-- value that names its kind and its line. A Go map is an association list.
pub mod Checks
pub mod Inside
pub mod Release
pub mod Packages
pub mod Pdiff
pub mod Sources
