-- ===== src/Lib.antt =====
-- KineIRCd, a modular IRC server, as a model of its core.
--
-- Bytes come in through a connection to a protocol instance, which is line based
-- (home/kineircd/src/lib_clbp), reads IRC-2 messages from the lines (lib_irc2) and carries them
-- out. A new connection has the registrar (mod_irc2registrar), which collects a registration and
-- then hands the connection over to another protocol. Entities that are registered stand in the
-- registry (lib/registry.cpp) under their folded names.
--
-- Prelude          lists, tests, text, decimals and signed numbers that the other files share.
-- Error            Kine::Error::error_type; Error/Names is home/kineircd/src/lib/errors.cpp.tpl.
-- Name             home/kineircd/src/lib/name.cpp; checkValidity of client.cpp (Name/Nickname),
--                  server.cpp (Name/Hostname), channel.cpp (Name/ChannelName) and network.cpp
--                  (Name/NetworkName). check_validity is checkValidity.
-- Registry         home/kineircd/src/lib/registry.cpp: findEntity, addEntity, removeEntity and
--                  changeUserNickname under the same names. Registry/EntityMap is the hash map,
--                  Registry/Refinement the directory that the registry promises. Registry/Own has
--                  the constructors of MyNetwork and MyServer (lib/mynetwork.cpp, lib/myserver.cpp).
-- Main             main of kineircd/src/ircd/ircd.cpp, as the calls it makes and its exit code.
-- Membership       Server::addUser (lib/server.cpp) and User::quit (lib/user.cpp).
-- Charset          convertChars (home/kineircd/src/lib/charconv.h) and the conversions of a
--                  protocol (lib/protocol.cpp). iconv is a parameter.
-- Clbp             Input::handleInput and Output (home/kineircd/src/lib_clbp and
--                  home/kineircd/include/kineircd/libclbp). Clbp/Input/Lines holds the
--                  specification of lines.
-- Irc2             Input::parseLine (home/kineircd/src/lib_irc2/input.cpp) and the formatting of
--                  home/kineircd/include/kineircd/libirc2/output.h. Irc2/Tokens is what is asked
--                  of the string functions of the library aisutil. Irc2/Replies is common.cpp:
--                  doADMIN, doLUSERS and their like, with doSTATS (Replies/Stats) and its handlers
--                  of stats.cpp (Replies/Requests), doUSERS (Replies/Users), the date of doTIME
--                  (Replies/Date), the time zone (Replies/Time), handleResources
--                  (Replies/Resources) and doWHOIS (Replies/Whois).
-- Network          MyNetwork::findClient and the searches of lib_irc2/utility.cpp.
-- Language         LanguageData of home/kineircd/src/lib/language/data.cpp: merge_with is mergeWith,
--                  get_each the get with a callback. Language/Escapes and Language/Files are
--                  loadFile of home/kineircd/src/lib/language/interface.cpp with the tag
--                  dictionary, Language/Fallback the get over a list of languages, Language/Wide
--                  is toWideStr, Language/Maps has the tag maps of modules, Language/Calls the other
--                  forms of get.
-- Connection       home/kineircd/src/lib/connection.cpp: handleInput, sendOutput and goodbye
--                  (handle_input, send_output, goodbye), over a protocol that is a record.
-- Daemon           home/kineircd/src/lib/daemon.cpp: registerProtocol, findProtocol, the loggers,
--                  newConnection and run (Daemon/Run).
-- Listener         home/kineircd/src/lib/listener: listener.cpp and list.cpp, and config.cpp
--                  (Listener/Config).
-- Logger           home/kineircd/src/lib/logger.cpp.tpl and
--                  home/kineircd/include/kineircd/logger.h.tpl; Logger/File is
--                  home/kineircd/src/mod_filelog/filelog.cpp. A mask is given by its bits.
-- Modules          home/kineircd/src/lib/modules: descriptor.cpp, list.cpp, and the two handlers
--                  of the configuration that load a module; Modules/Irc2 is module.cpp of
--                  mod_irc2registrar and mod_irc2user, with lib_irc2/library.cpp, and
--                  Modules/Loggers that of mod_filelog, mod_syslog and mod_channellog.
-- Password         home/kineircd/include/kineircd/password.h and the password utility,
--                  kineircd/src/utils/ircpasswd.cpp.
-- Config           varHandleNetworkName of home/kineircd/src/lib/config/handlers.cpp.
-- Irc2User         home/kineircd/src/mod_irc2user: the constructor of Protocol (Irc2User/Welcome),
--                  doMessage (messaging.cpp), parseMessage with findCommand and hasAccess
--                  (protocol.cpp, commands.cpp, commands.h.tpl), sendISUPPORT (Irc2User/Support),
--                  sendNames and sendLanguageList (Irc2User/Names, all of protocol.cpp),
--                  ISupport::initInfo of isupport.cpp (Irc2User/Support/Tags), the events of
--                  user.cpp (Irc2User/Events), the functions of scheme.cpp (Irc2User/Scheme), and
--                  the handlers of handlers.cpp: AWAY and ISON (Irc2User/Presence), WHO, USERHOST
--                  and USERIP (Who, UserHost), LANGUAGE (Languages), SQUERY (Services), SERVLIST
--                  (ServiceList), HELP (Help) and the others (Handlers). Irc2User/Dispatch goes
--                  from parseMessage to the handler that the table of commands.def names
--                  (Dispatch/Table). The handlers of the commands that commands.def has commented
--                  out are compiled only where it names them.
-- User             home/kineircd/src/lib/user.cpp: the away message, the staff status and the
--                  languages of a user. The doEvent calls are recorded as events.
-- Registrar        home/kineircd/src/mod_irc2registrar/protocol.cpp: Registrar/State is the
--                  instance with its connection and what it sends, Registrar/Commands has
--                  parseCAPAB to parseUSER, Registrar/Message has parseMessage.
-- Examples         tests, and the theorems at concrete inputs.
--
-- State is passed explicitly: a handler takes the state of the instance and gives the next one.
-- Undefined behaviour that the source can reach (a read past the end of a vector, a call of an
-- instance that has deleted itself) is `none`. Text is a list of code units, and a const string
-- gives NUL at its end.
--
-- Loops run by structural recursion, except for a few on fuel. handleInput takes the length of
-- the data and one, and parseLine the length of the line and one, which is enough since a line
-- and a parameter each take a character; so do a target of doMessage and a segment of a tag. The
-- loop over channel prefixes has the fuel as an argument, since it need not end in the source.
--
-- A list of targets or codes is taken apart with its length and one as fuel, and the escapes of a
-- language file with the length of the data, since each step takes a character. A decimal takes
-- the number it writes as its fuel, since each digit makes the rest smaller.
--
-- The loop of convertChars has its rounds as fuel: a conversion of n bytes gets n and one, which is
-- enough where each round reads something.
--
-- The libraries that are not in the repository are parameters: the tokenizer and number
-- conversions of aisutil, its peak counter and masks, the random text of a probe, the conversion of
-- character sets, the answers of sockets, the database of services, the loader of modules and (for
-- the protocols) the language data. What the build defines is a parameter as well.
--
-- Not modelled: the text of the version, and what is input and output or calls of aisutil or
-- libguile only: sockets and select, the parser of configuration files and its tables, the loggers
-- to syslog and to a channel, the opening of files, the http module. The sources of
-- home/kineircd/OLD are retired.
pub mod Prelude
pub mod Error
pub mod Name
pub mod Registry
pub mod Membership
pub mod Charset
pub mod Clbp
pub mod Connection
pub mod Irc2
pub mod Network
pub mod Language
pub mod User
pub mod Irc2User
pub mod Registrar
pub mod Config
pub mod Main
pub mod Password
pub mod Modules
pub mod Daemon
pub mod Listener
pub mod Logger
pub mod Examples
